-- ===== src/Sack.antt =====
-- tcp-core/src/sack.rs: the sender's SACK scoreboard and the RFC 6675 predicates on it.
pub mod Valid
pub mod Update
pub mod Spans
pub mod Count
pub mod Pipe
pub mod NextSeg
mod Tests
use ferrumnet.Prelude.{
  ℕ, zero, suc, ◌+◌, ◌-◌, ◌*◌, Bool, true, false, not, ◌&&◌, ◌||◌, List, [], ◌∷◌, ◌++◌, Option,
  none, some, length, take, is_some, ltb, leb, saturating_add, u32, if◌then◌else◌,
}
use ferrumnet.Seq.{SeqNumber, lt, le, gt, ge, offset_from}
use ferrumnet.Runs.{
  Run, insert_run, trim_runs, run_list_well_formed, covers, last_edge, boundary_from, next_left,
  above_from,
}

abbrev pub dup_thresh : ℕ
dup_thresh = 3

abbrev pub max_runs : ℕ
max_runs = 128

pub record Scoreboard : Type 0 where
  pub sacked : List Run
  pub rexmit : List Run
  pub recovery_point : Option SeqNumber
  pub rescue_done : Bool

abbrev pub new : Scoreboard
new = record { sacked = []; rexmit = []; recovery_point = none; rescue_done = false }

abbrev pub in_recovery : Scoreboard → Bool
in_recovery sb = is_some sb.recovery_point

unfoldable pub begin_recovery : Scoreboard → SeqNumber → Scoreboard
begin_recovery sb recovery_point = record sb {
  recovery_point = some recovery_point;
  rescue_done = false;
}

abbrev pub reached : Option SeqNumber → SeqNumber → Bool
reached none snd_una = false
reached (some rp) snd_una = ge snd_una rp

abbrev pub recovery_reached : Scoreboard → SeqNumber → Bool
recovery_reached sb snd_una = reached sb.recovery_point snd_una

unfoldable pub exit_recovery : Scoreboard → Scoreboard
exit_recovery sb = record sb { recovery_point = none; rexmit = []; rescue_done = false }

unfoldable pub on_rto : Scoreboard → Scoreboard
on_rto sb = record sb { rexmit = []; recovery_point = none; rescue_done = false }

-- One block of `update`, with the guards that reject it or clip it.
unfoldable pub apply_block : SeqNumber → SeqNumber → List Run → Run → List Run
apply_block snd_una snd_nxt runs (l, r) =
    if not (lt l r)
    then runs
    else if le r snd_una
    then runs
    else if gt l snd_nxt || gt r snd_nxt
    then runs
    else let l' = if lt l snd_una then snd_una else l in
      if lt l' r then insert_run runs l' r else runs

unfoldable pub apply_blocks : SeqNumber → SeqNumber → List Run → List Run → List Run
unfolding apply_block
apply_blocks snd_una snd_nxt runs [] = runs
apply_blocks snd_una snd_nxt runs (b ∷ blocks) =
    apply_blocks snd_una snd_nxt (apply_block snd_una snd_nxt runs b) blocks

-- `Vec::pop`
abbrev pub pop : List Run → List Run
pop runs = take (length runs - 1) runs

-- `while sacked.len() > MAX_RUNS { sacked.pop(); }`, on fuel: the number of runs is enough.
unfoldable pub cap_runs : ℕ → List Run → List Run
cap_runs zero runs = runs
cap_runs (suc fuel) runs = elim (ltb max_runs (length runs)) [
  | true ↦ cap_runs fuel (pop runs)
  | false ↦ runs
]

unfoldable pub update : Scoreboard → SeqNumber → SeqNumber → List Run → Scoreboard
unfolding apply_blocks cap_runs
update sb snd_una snd_nxt blocks =
    let runs = apply_blocks snd_una snd_nxt sb.sacked blocks in
    record sb { sacked = cap_runs (length runs) runs }

unfoldable pub trim : Scoreboard → SeqNumber → Scoreboard
unfolding trim_runs
trim sb snd_una = record sb {
  sacked = trim_runs sb.sacked snd_una;
  rexmit = trim_runs sb.rexmit snd_una;
}

unfoldable pub mark_rexmit : Scoreboard → SeqNumber → SeqNumber → Scoreboard
mark_rexmit sb l r = if lt l r then record sb { rexmit = insert_run sb.rexmit l r } else sb

unfoldable pub set_rescue_done : Scoreboard → Scoreboard
set_rescue_done sb = record sb { rescue_done = true }

unfoldable pub invariants_hold : Scoreboard → Bool
unfolding run_list_well_formed
invariants_hold sb = run_list_well_formed sb.sacked && run_list_well_formed sb.rexmit

unfoldable pub is_sacked : Scoreboard → SeqNumber → Bool
unfolding covers
is_sacked sb seq = covers sb.sacked seq

unfoldable pub is_rexmit : Scoreboard → SeqNumber → Bool
unfolding covers
is_rexmit sb seq = covers sb.rexmit seq

unfoldable pub highest_sacked_edge : Scoreboard → Option SeqNumber
unfolding last_edge
highest_sacked_edge sb = last_edge sb.sacked

unfoldable pub next_boundary : Scoreboard → SeqNumber → SeqNumber → SeqNumber
unfolding boundary_from
next_boundary sb s limit = boundary_from (sb.sacked ++ sb.rexmit) s limit

unfoldable pub unsacked_run_len : Scoreboard → SeqNumber → SeqNumber → ℕ
unfolding next_left
unsacked_run_len sb seq limit =
    let end = next_left sb.sacked seq limit in if le end seq then 0 else offset_from end seq

unfoldable pub is_lost : Scoreboard → SeqNumber → ℕ → Bool
unfolding above_from
is_lost sb seq smss =
    let (blocks_above, bytes_above) = above_from sb.sacked seq 0 0 in
    leb dup_thresh blocks_above || ltb (u32 ((dup_thresh - 1) * smss)) bytes_above

-- An unsacked span that counts towards the pipe.
unfoldable pub in_pipe : Scoreboard → SeqNumber → ℕ → Bool
in_pipe sb s smss = not (is_sacked sb s) && (is_rexmit sb s || not (is_lost sb s smss))

-- The loop of `pipe`, on fuel: the bytes from `s` to `snd_nxt` are enough.
unfoldable pub pipe_from : Scoreboard → ℕ → SeqNumber → SeqNumber → ℕ → ℕ → ℕ
pipe_from sb zero s snd_nxt smss pipe = pipe
pipe_from sb (suc fuel) s snd_nxt smss pipe =
    let end = next_boundary sb s snd_nxt in
    let pipe' = if in_pipe sb s smss then saturating_add pipe (offset_from end s) else pipe in
    elim (lt s snd_nxt) [ true ↦ pipe_from sb fuel end snd_nxt smss pipe' | false ↦ pipe ]

unfoldable pub pipe : Scoreboard → SeqNumber → SeqNumber → ℕ → ℕ
unfolding pipe_from
pipe sb snd_una snd_nxt smss =
    pipe_from sb (suc (offset_from snd_nxt snd_una)) snd_una snd_nxt smss 0

-- A span that rule (1) of `next_seg` repairs, and one that its rule (3) rescues.
unfoldable pub rule_one : Scoreboard → ℕ → SeqNumber → Bool
rule_one sb smss s = not (is_sacked sb s) && (not (is_rexmit sb s) && is_lost sb s smss)

unfoldable pub rule_three : Scoreboard → SeqNumber → SeqNumber → Bool
rule_three sb high s = not (is_sacked sb s) && (not (is_rexmit sb s) && lt s high)

-- Both loops of `next_seg`: the first span boundary that passes the test.
unfoldable pub first_span :
    Scoreboard → (SeqNumber → Bool) → ℕ → SeqNumber → SeqNumber → Option SeqNumber
first_span sb test zero s snd_nxt = none
first_span sb test (suc fuel) s snd_nxt = elim (lt s snd_nxt) [
  | true ↦ elim (test s) [
    | true ↦ some s
    | false ↦ first_span sb test fuel (next_boundary sb s snd_nxt) snd_nxt
  ]
  | false ↦ none
]

-- The rescue of rule (3), at most once in an episode.
unfoldable pub rescue_seg : Scoreboard → ℕ → SeqNumber → SeqNumber → Option (SeqNumber × Bool)
unfolding first_span rule_three highest_sacked_edge
rescue_seg sb fuel snd_una snd_nxt =
    if sb.rescue_done then none else elim (highest_sacked_edge sb) [
      | none ↦ none
      | some high ↦ elim (first_span sb (rule_three sb high) fuel snd_una snd_nxt) [
        | none ↦ none
        | some s ↦ some (s, true)
      ]
    ]

unfoldable pub next_seg : Scoreboard → SeqNumber → SeqNumber → ℕ → Option (SeqNumber × Bool)
unfolding first_span rule_one rescue_seg
next_seg sb snd_una snd_nxt smss =
    let fuel = suc (offset_from snd_nxt snd_una) in
    elim (first_span sb (rule_one sb smss) fuel snd_una snd_nxt) [
      | none ↦ rescue_seg sb fuel snd_una snd_nxt
      | some s ↦ some (s, false)
    ]
