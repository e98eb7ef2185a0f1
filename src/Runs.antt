-- ===== src/Runs.antt =====
-- Lists of runs of sequence numbers, from tcp-core/src/sack.rs: the functions on `Vec<Run>` that the
-- scoreboard is made of.
pub mod Order
pub mod Merge
pub mod Insert
pub mod Trim
use ferrumnet.Prelude.{
  ℕ, zero, suc, ◌+◌, ◌-◌, Bool, true, false, ◌&&◌, ◌||◌, List, [], ◌∷◌, Option, none, some, length,
  remove, insert_at, position, ◌==◌, saturating_add, u32, if◌then◌else◌,
}
use ferrumnet.Seq.{SeqNumber, lt, le, gt, ge, offset_from}

-- Half-open `[left, right)`.
abbrev pub Run : Type 0
Run = SeqNumber × SeqNumber

-- The variables of the loop of `insert_run`.
pub record Scan : Type 0 where
  pub first : ℕ
  pub count : ℕ
  pub l : SeqNumber
  pub r : SeqNumber

-- One round of that loop, at the run `[rl, rr)` with index `i`.
unfoldable pub touch : ℕ → SeqNumber → SeqNumber → Scan → Scan
touch i rl rr s =
    if le rl s.r && le s.l rr
    then record {
      first = if s.count == 0 then i else s.first;
      count = s.count + 1;
      l = if lt rl s.l then rl else s.l;
      r = if gt rr s.r then rr else s.r;
    }
    else s

unfoldable pub scan : List Run → ℕ → Scan → Scan
unfolding touch
scan [] i s = s
scan ((rl, rr) ∷ rest) i s = scan rest (i + 1) (touch i rl rr s)

-- `for _ in 0..count { runs.remove(first); }`
unfoldable pub remove_many : ℕ → ℕ → List Run → List Run
remove_many zero first runs = runs
remove_many (suc count) first runs = remove_many count first (remove runs first)

-- What `insert_run` does with the variables that its loop leaves.
unfoldable pub replace_touched : List Run → Scan → List Run
unfolding remove_many
replace_touched runs s =
    let kept = remove_many s.count s.first runs in
    insert_at kept (position (λ run. lt s.l run.0) kept) (s.l, s.r)

unfoldable pub insert_run : List Run → SeqNumber → SeqNumber → List Run
unfolding scan replace_touched
insert_run runs l r =
    replace_touched runs (scan runs 0 (record { first = length runs; count = 0; l = l; r = r }))

-- `trim_runs`: the `retain`, then the loop that clips.
unfoldable pub retain_above : List Run → SeqNumber → List Run
retain_above [] snd_una = []
retain_above ((l, r) ∷ rest) snd_una =
    let kept = retain_above rest snd_una in if gt r snd_una then (l, r) ∷ kept else kept

unfoldable pub clip : List Run → SeqNumber → List Run
clip [] snd_una = []
clip ((l, r) ∷ rest) snd_una = ((if lt l snd_una then snd_una else l), r) ∷ clip rest snd_una

unfoldable pub trim_runs : List Run → SeqNumber → List Run
unfolding retain_above clip
trim_runs runs snd_una = clip (retain_above runs snd_una) snd_una

-- `run_list_well_formed`: every run is non-empty, and neighbours have a gap between them.
unfoldable pub all_nonempty : List Run → Bool
all_nonempty [] = true
all_nonempty ((l, r) ∷ rest) = lt l r && all_nonempty rest

unfoldable pub all_gapped : List Run → Bool
all_gapped [] = true
all_gapped (x ∷ []) = true
all_gapped (x ∷ (y ∷ rest)) = lt x.1 y.0 && all_gapped (y ∷ rest)

unfoldable pub run_list_well_formed : List Run → Bool
unfolding all_nonempty all_gapped
run_list_well_formed runs = all_nonempty runs && all_gapped runs

-- `runs.iter().any(|&(l, r)| seq.ge(l) && seq.lt(r))`
unfoldable pub covers : List Run → SeqNumber → Bool
covers [] seq = false
covers ((l, r) ∷ rest) seq = (ge seq l && lt seq r) || covers rest seq

unfoldable pub last_edge : List Run → Option SeqNumber
last_edge [] = none
last_edge (x ∷ []) = some x.1
last_edge (x ∷ (y ∷ rest)) = last_edge (y ∷ rest)

-- One edge in the loop of `next_boundary`.
abbrev pub nearer : SeqNumber → SeqNumber → SeqNumber → SeqNumber
nearer s edge b = if gt edge s && lt edge b then edge else b

unfoldable pub boundary_from : List Run → SeqNumber → SeqNumber → SeqNumber
boundary_from [] s b = b
boundary_from ((l, r) ∷ rest) s b = boundary_from rest s (nearer s r (nearer s l b))

unfoldable pub next_left : List Run → SeqNumber → SeqNumber → SeqNumber
next_left [] seq end = end
next_left ((l, r) ∷ rest) seq end = next_left rest seq (nearer seq l end)

-- The loop of `is_lost`, with the blocks and the bytes counted so far.
unfoldable pub above_from : List Run → SeqNumber → ℕ → ℕ → ℕ × ℕ
above_from [] seq blocks bytes = (blocks, bytes)
above_from ((l, r) ∷ rest) seq blocks bytes =
    let hit = gt l seq in
    above_from rest seq (if hit then u32 (blocks + 1) else blocks)
      (if hit then saturating_add bytes (offset_from r l) else bytes)
