-- ===== src/Runs/Merge.antt =====
-- Which numbers a merged list of runs covers: tcp-core/src/sack.rs.
use ferrumnet.Prelude.{
  ℕ, ◌+◌, ◌<◌, ◌≡◌, refl, arith, true, ◌&&◌, ◌||◌, List, [], ◌∷◌, if◌then◌else◌,
}
use ferrumnet.Seq.{SeqNumber, lt, gt, ge, offset_from}
use ferrumnet.Seq.Order.{Near}
use ferrumnet.Runs.{Run, covers, run_list_well_formed, all_nonempty, all_gapped}
use ferrumnet.Runs.Order.{Runs, merge, compares}

module _ (base : SeqNumber) (hi : ℕ) where
  pub covers-merge :
      (lo : ℕ) (runs : List Run) (l r x : SeqNumber)
      → Runs base lo hi runs
      → Near base l
      → Near base r
      → Near base x
      → offset_from l base < offset_from r base
      → covers (merge runs l r) x ≡ (covers runs x || (ge x l && lt x r))
  unfolding merge covers
  covers-merge lo [] l r x w nl nr nx k = ground arith
  covers-merge lo ((rl, rr) ∷ rest) l r x w nl nr nx k = ground (
    arith,
    compares base rr l w.1 nl,
    compares base r rl nr w.0,
    compares base rl l w.0 nl,
    compares base rr r w.1 nr,
    compares base x rl nx w.0,
    compares base x rr nx w.1,
    compares base x l nx nl,
    compares base x r nx nr,
    covers-merge (offset_from rr base + 1) rest l r x w.5 nl nr nx,
    covers-merge (offset_from rr base + 1) rest (if lt rl l then rl else l)
        (if gt rr r then rr else r) x w.5 (ground arith) (ground arith) nx,
  )

  -- The code's own check accepts every list in order.
  all_nonempty_lem : (lo : ℕ) (runs : List Run) → Runs base lo hi runs → all_nonempty runs ≡ true
  unfolding all_nonempty
  all_nonempty_lem lo [] w = refl
  all_nonempty_lem lo ((l, r) ∷ rest) w =
      ground (arith, compares base l r w.0 w.1, all_nonempty_lem (offset_from r base + 1) rest w.5)

  all_gapped_lem : (lo : ℕ) (runs : List Run) → Runs base lo hi runs → all_gapped runs ≡ true
  unfolding all_gapped
  all_gapped_lem lo [] w = refl
  all_gapped_lem lo ((l, r) ∷ []) w = refl
  all_gapped_lem lo ((l, r) ∷ ((l', r') ∷ rest)) w = ground (
    arith,
    compares base r l' w.1 w.5.0,
    all_gapped_lem (offset_from r base + 1) ((l', r') ∷ rest) w.5,
  )

  pub Runs-well_formed :
      (lo : ℕ) (runs : List Run) → Runs base lo hi runs → run_list_well_formed runs ≡ true
  unfolding run_list_well_formed
  Runs-well_formed lo runs w = ground (arith, all_nonempty_lem lo runs w, all_gapped_lem lo runs w)
