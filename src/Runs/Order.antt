-- ===== src/Runs/Order.antt =====
-- Lists of runs in order above a base, and the merge that `insert_run` of tcp-core/src/sack.rs does.
use ferrumnet.Prelude.{ℕ, ◌+◌, ◌≤◌, ◌<◌, ◌≡◌, arith, List, [], ◌∷◌, ltb, leb, if◌then◌else◌}
use ferrumnet.Seq.{SeqNumber, lt, le, gt, ge, offset_from}
use ferrumnet.Seq.Order.{Near, lt-offset, le-offset, gt-offset, ge-offset}
use ferrumnet.Runs.{Run}

-- Runs in ascending order with a gap between neighbours, non-empty, from offset `lo` to at most
-- offset `hi` above the base.
abbrev pub Runs : SeqNumber → ℕ → ℕ → List Run → Type 0
Runs base lo hi [] = Unit
Runs base lo hi ((l, r) ∷ rest) =
    Near base l
    × Near base r
    × (lo ≤ offset_from l base)
    × (offset_from l base < offset_from r base)
    × (offset_from r base ≤ hi)
    × Runs base (offset_from r base + 1) hi rest

-- The reference for `insert_run`: runs below stay, the first one above ends the walk, and what
-- overlaps or touches is merged into the new run.
unfoldable pub merge : List Run → SeqNumber → SeqNumber → List Run
merge [] l r = (l, r) ∷ []
merge ((rl, rr) ∷ rest) l r =
    let beyond = (rl, rr) ∷ merge rest l r in
    let joined = merge rest (if lt rl l then rl else l) (if gt rr r then rr else r) in
    if lt rr l then beyond else if lt r rl then (l, r) ∷ ((rl, rr) ∷ rest) else joined

pub Runs-weaken :
    (base : SeqNumber) (lo lo' hi : ℕ) (runs : List Run)
    → lo' ≤ lo
    → Runs base lo hi runs
    → Runs base lo' hi runs
Runs-weaken base lo lo' hi [] h w = tt
Runs-weaken base lo lo' hi ((l, r) ∷ rest) h w = (w.0, w.1, omega arith, w.3, w.4, w.5)

-- The comparisons of two numbers near the base, as those of their offsets.
pub compares :
    (base a b : SeqNumber)
    → Near base a
    → Near base b
    → (lt a b ≡ ltb (offset_from a base) (offset_from b base))
      × (le a b ≡ leb (offset_from a base) (offset_from b base))
      × (gt a b ≡ ltb (offset_from b base) (offset_from a base))
      × (ge a b ≡ leb (offset_from b base) (offset_from a base))
compares base a b p q =
    (lt-offset base a b p q, le-offset base a b p q, gt-offset base a b p q, ge-offset base a b p q)

module _ (base : SeqNumber) (hi : ℕ) where
  pub merge-Runs :
      (lo : ℕ) (runs : List Run) (l r : SeqNumber)
      → Runs base lo hi runs
      → Near base l
      → Near base r
      → lo ≤ offset_from l base
      → offset_from l base < offset_from r base
      → offset_from r base ≤ hi
      → Runs base lo hi (merge runs l r)
  unfolding merge
  merge-Runs lo [] l r w nl nr h k m = (nl, nr, h, k, m, tt)
  merge-Runs lo ((rl, rr) ∷ rest) l r w nl nr h k m = ground (
    arith,
    compares base rr l w.1 nl,
    compares base r rl nr w.0,
    compares base rl l w.0 nl,
    compares base rr r w.1 nr,
    merge-Runs (offset_from rr base + 1) rest l r w.5 nl nr,
    merge-Runs lo rest (if lt rl l then rl else l) (if gt rr r then rr else r)
        (Runs-weaken base (offset_from rr base + 1) lo hi rest (omega arith) w.5) (ground arith)
        (ground arith),
  )
