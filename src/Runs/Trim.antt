-- ===== src/Runs/Trim.antt =====
-- `trim_runs` of tcp-core/src/sack.rs: what is left above the cumulative ACK.
use ferrumnet.Prelude.{ℕ, ◌+◌, ◌-◌, ◌≤◌, ◌≡◌, refl, arith, ◌&&◌, List, [], ◌∷◌, max}
use ferrumnet.Seq.{SeqNumber, ge, offset_from}
use ferrumnet.Seq.Order.{Near, offset_from-sub}
use ferrumnet.Runs.{Run, covers, trim_runs}
use ferrumnet.Runs.Order.{Runs, Runs-weaken, compares}

module _ (base : SeqNumber) (hi : ℕ) (una : SeqNumber) (nu : Near base una) where
  pub trim-Runs :
      (lo : ℕ) (runs : List Run)
      → Runs base lo hi runs
      → Runs base (max lo (offset_from una base)) hi (trim_runs runs una)
  unfolding trim_runs
  trim-Runs lo [] w = tt
  trim-Runs lo ((l, r) ∷ rest) w = ground (
    arith,
    compares base r una w.1 nu,
    compares base l una w.0 nu,
    trim-Runs (offset_from r base + 1) rest w.5,
    Runs-weaken base (max (offset_from r base + 1) (offset_from una base))
        (max lo (offset_from una base)) hi (trim_runs rest una),
  )

  pub covers-trim :
      (lo : ℕ) (runs : List Run) (x : SeqNumber)
      → Runs base lo hi runs
      → Near base x
      → covers (trim_runs runs una) x ≡ (covers runs x && ge x una)
  unfolding trim_runs covers
  covers-trim lo [] x w nx = refl
  covers-trim lo ((l, r) ∷ rest) x w nx = ground (
    arith,
    compares base r una w.1 nu,
    compares base l una w.0 nu,
    compares base x una nx nu,
    compares base x l nx w.0,
    compares base x r nx w.1,
    covers-trim (offset_from r base + 1) rest x w.5 nx,
  )

pub Near-rebase :
    (base una a : SeqNumber)
    → Near base una
    → Near base a
    → offset_from una base ≤ offset_from a base
    → Near una a × (offset_from a una ≡ offset_from a base - offset_from una base)
Near-rebase base una a nu na h =
    let e : offset_from a una ≡ offset_from a base - offset_from una base =
      offset_from-sub base a una na.fits nu.fits nu.base_fits h in
    (record { fits = na.fits; base_fits = nu.fits; close = omega arith }, e)

-- The same runs, measured from a later base.
pub Runs-rebase :
    (base una : SeqNumber) (lo hi : ℕ) (runs : List Run)
    → Near base una
    → offset_from una base ≤ lo
    → Runs base lo hi runs
    → Runs una (lo - offset_from una base) (hi - offset_from una base) runs
Runs-rebase base una lo hi [] nu h w = tt
Runs-rebase base una lo hi ((l, r) ∷ rest) nu h w =
    let el = Near-rebase base una l nu w.0 (omega arith) in
    let er = Near-rebase base una r nu w.1 (omega arith) in
    (
      el.0,
      er.0,
      omega (arith, el.1),
      omega (arith, el.1, er.1),
      omega (arith, er.1),
      Runs-weaken una (offset_from r base + 1 - offset_from una base) (offset_from r una + 1)
          (hi - offset_from una base) rest (omega (arith, er.1))
          (Runs-rebase base una (offset_from r base + 1) hi rest nu (omega arith) w.5),
    )
