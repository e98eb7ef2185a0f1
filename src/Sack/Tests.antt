-- ===== src/Sack/Tests.antt =====
-- The scoreboard of a window that crosses the wrap of the sequence space.
use ferrumnet.Prelude.{
  ◌+◌, ◌-◌, ◌≤◌, ◌≡◌, ◌^◌, refl, arith, false, not, ◌&&◌, ◌||◌, List, [], ◌∷◌, some, length,
}
use ferrumnet.Seq.{SeqNumber, offset_from, lt, le, gt, ge}
use ferrumnet.Seq.Order.{Near}
use ferrumnet.Runs.{Run, insert_run}
use ferrumnet.Runs.Order.{merge}
use ferrumnet.Runs.Insert.{insert_run-eq-merge}
use ferrumnet.Sack.{
  Scoreboard, max_runs, update, apply_blocks, trim, is_sacked, is_rexmit, pipe, in_pipe, is_lost,
  next_boundary, next_seg,
}
use ferrumnet.Sack.Valid.{IsValid, trim-IsValid}
use ferrumnet.Sack.Update.{Blocks, reported, update-IsValid, is_sacked-update}
use ferrumnet.Sack.Count.{count}
use ferrumnet.Sack.Pipe.{pipe-eq-count}
use ferrumnet.Sack.NextSeg.{NextSeg, next_seg_lem}

-- `una` is 1000 below the wrap, `nxt` is 9000 past `una`.
abbrev una : SeqNumber
una = 2 ^ 32 - 1_000

abbrev nxt : SeqNumber
nxt = 8_000

-- Three SACKed runs, of which the first begins at the wrap, and a hole that was repaired.
abbrev board : Scoreboard
board = record {
  sacked = (0, 1_000) ∷ (2_000, 3_000) ∷ (5_000, 6_000) ∷ [];
  rexmit = (una, una + 500) ∷ [];
  recovery_point = some nxt;
  rescue_done = false;
}

abbrev blocks : List Run
blocks = (1_000, 1_500) ∷ (una - 2_000, una - 1_000) ∷ (7_000, 9_000) ∷ (una - 50, una + 100) ∷ []

board-IsValid : IsValid una nxt board
unfolding offset_from
board-IsValid = omega arith

near_mid : Near una 1_200
unfolding offset_from
near_mid = omega arith

near_end : Near una 4_000
unfolding offset_from
near_end = omega arith

-- `update` merges the adjacent block, ignores the stale one and the one past `nxt`, and clips the
-- one that straddles `una`.
update_merges :
    (update board una nxt blocks).sacked
    ≡ (una, una + 100) ∷ (0, 1_500) ∷ (2_000, 3_000) ∷ (5_000, 6_000) ∷ []
unfolding update insert_run lt le gt ge
update_merges = refl

blocks_fit : Blocks blocks
blocks_fit = omega arith

trim-IsValid_example :
    IsValid 1_200 nxt (trim board 1_200)
    × (is_sacked (trim board 1_200) 4_000 ≡ (is_sacked board 4_000 && ge 4_000 1_200))
    × (is_rexmit (trim board 1_200) 4_000 ≡ (is_rexmit board 4_000 && ge 4_000 1_200))
unfolding offset_from
trim-IsValid_example =
    trim-IsValid una nxt 1_200 4_000 board board-IsValid near_mid (omega arith) near_end

insert_run_example : insert_run board.sacked 1_200 4_000 ≡ merge board.sacked 1_200 4_000
unfolding offset_from
insert_run_example =
    insert_run-eq-merge una 0 (offset_from nxt una) board.sacked 1_200 4_000
      board-IsValid.sacked_runs near_mid near_end (omega arith)

update-IsValid_example :
    IsValid una nxt (update board una nxt blocks)
    × (length (update board una nxt blocks).sacked ≤ max_runs)
    × (is_rexmit (update board una nxt blocks) 1_200 ≡ is_rexmit board 1_200)
    × ((is_sacked (update board una nxt blocks) 1_200
          && not (is_sacked board 1_200 || reported una nxt blocks 1_200))
        ≡ false)
update-IsValid_example = update-IsValid una nxt 1_200 board blocks board-IsValid blocks_fit near_mid

is_sacked-update_example :
    is_sacked (update board una nxt blocks) 1_200
    ≡ (is_sacked board 1_200 || reported una nxt blocks 1_200)
unfolding apply_blocks lt le gt insert_run
is_sacked-update_example =
    is_sacked-update una nxt 1_200 board blocks board-IsValid blocks_fit near_mid few
  where
    few : length (apply_blocks una nxt board.sacked blocks) ≤ max_runs
    few = omega arith

pipe-eq-count_example :
    (pipe board una nxt 1_460 ≡ count (λ x. in_pipe board x 1_460) una (offset_from nxt una))
    × (pipe board una nxt 1_460 ≤ offset_from nxt una)
pipe-eq-count_example = pipe-eq-count una nxt 1_460 board board-IsValid

pipe_counts : pipe board una nxt 1_460 ≡ 5_500
unfolding pipe in_pipe is_sacked is_rexmit is_lost next_boundary lt le gt ge offset_from
pipe_counts = refl

next_seg_example : NextSeg una nxt 1_460 board (next_seg board una nxt 1_460)
next_seg_example = next_seg_lem una nxt 1_460 board board-IsValid
