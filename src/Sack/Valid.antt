-- ===== src/Sack/Valid.antt =====
-- The invariant of the scoreboard of tcp-core/src/sack.rs, and what each operation does to it.
use ferrumnet.Prelude.{
  ◌-◌, ◌≤◌, ◌<◌, ◌≡◌, refl, arith, true, false, ◌&&◌, ◌||◌, List, max, Bool-cases, inl, inr,
}
use ferrumnet.Seq.{SeqNumber, lt, ge, offset_from}
use ferrumnet.Seq.Order.{Near}
use ferrumnet.Runs.{Run, covers, trim_runs, insert_run}
use ferrumnet.Runs.Order.{Runs, Runs-weaken, compares, merge-Runs}
use ferrumnet.Runs.Merge.{covers-merge, Runs-well_formed}
use ferrumnet.Runs.Insert.{insert_run-eq-merge}
use ferrumnet.Runs.Trim.{trim-Runs, covers-trim, Runs-rebase, Near-rebase}
use ferrumnet.Sack.{
  Scoreboard, begin_recovery, exit_recovery, on_rto, trim, mark_rexmit, is_sacked, is_rexmit,
  invariants_hold,
}

-- The window from `una` to `nxt` is less than half the space, and both sets are in order in it.
pub record IsValid (una nxt : SeqNumber) (sb : Scoreboard) : Type 0 where
  pub window : Near una nxt
  pub sacked_runs : Runs una 0 (offset_from nxt una) sb.sacked
  pub rexmit_runs : Runs una 0 (offset_from nxt una) sb.rexmit

-- The code's own check holds of every valid scoreboard.
pub IsValid-invariants_hold :
    (una nxt : SeqNumber) (sb : Scoreboard) → IsValid una nxt sb → invariants_hold sb ≡ true
unfolding invariants_hold
IsValid-invariants_hold una nxt sb v = ground (
  arith,
  Runs-well_formed una (offset_from nxt una) 0 sb.sacked v.sacked_runs,
  Runs-well_formed una (offset_from nxt una) 0 sb.rexmit v.rexmit_runs,
)

trimmed :
    (una nxt una' : SeqNumber) (runs : List Run)
    → Near una nxt
    → Near una una'
    → offset_from una' una ≤ offset_from nxt una
    → Runs una 0 (offset_from nxt una) runs
    → Runs una' 0 (offset_from nxt una') (trim_runs runs una')
trimmed una nxt una' runs nw nu h w =
    let e = Near-rebase una una' nxt nu nw h in
    rw e.1 (
      Runs-weaken una' (max 0 (offset_from una' una) - offset_from una' una) 0
        (offset_from nxt una - offset_from una' una) (trim_runs runs una') (omega arith)
        (Runs-rebase una una' (max 0 (offset_from una' una)) (offset_from nxt una)
          (trim_runs runs una') nu (omega arith)
          (trim-Runs una (offset_from nxt una) una' nu 0 runs w)))

-- When the cumulative ACK moves from `una` to `una'` within the window, `trim` leaves a scoreboard
-- that is valid for the window from `una'`, and a number from `una'` on is SACKed, or marked as
-- retransmitted, exactly if it was before; no earlier number of the window is.
pub trim-IsValid :
    (una nxt una' x : SeqNumber) (sb : Scoreboard)
    → IsValid una nxt sb
    → Near una una'
    → offset_from una' una ≤ offset_from nxt una
    → Near una x
    → IsValid una' nxt (trim sb una')
      × (is_sacked (trim sb una') x ≡ (is_sacked sb x && ge x una'))
      × (is_rexmit (trim sb una') x ≡ (is_rexmit sb x && ge x una'))
unfolding trim is_sacked is_rexmit
trim-IsValid una nxt una' x sb v nu h nx = (
  record {
    window = (Near-rebase una una' nxt nu v.window h).0;
    sacked_runs = trimmed una nxt una' sb.sacked v.window nu h v.sacked_runs;
    rexmit_runs = trimmed una nxt una' sb.rexmit v.window nu h v.rexmit_runs;
  },
  covers-trim una (offset_from nxt una) una' nu 0 sb.sacked x v.sacked_runs nx,
  covers-trim una (offset_from nxt una) una' nu 0 sb.rexmit x v.rexmit_runs nx,
)

-- `insert_run` on runs in order, for a non-empty run inside the window.
pub insert_run_lem :
    (una nxt : SeqNumber) (runs : List Run) (l r : SeqNumber)
    → Runs una 0 (offset_from nxt una) runs
    → Near una l
    → Near una r
    → offset_from l una < offset_from r una
    → offset_from r una ≤ offset_from nxt una
    → Runs una 0 (offset_from nxt una) (insert_run runs l r)
      × ((x : SeqNumber)
          → Near una x
          → covers (insert_run runs l r) x ≡ (covers runs x || (ge x l && lt x r)))
insert_run_lem una nxt runs l r w nl nr k h =
    rw (insert_run-eq-merge una 0 (offset_from nxt una) runs l r w nl nr k) (
      merge-Runs una (offset_from nxt una) 0 runs l r w nl nr (omega arith) k h,
      λ x nx. covers-merge una (offset_from nxt una) 0 runs l r x w nl nr nx k,
    )

-- Marking a part `[l, r)` of the window as retransmitted keeps the scoreboard valid, and marks
-- exactly the numbers of `[l, r)` besides those that were marked.
pub mark_rexmit-IsValid :
    (una nxt l r x : SeqNumber) (sb : Scoreboard)
    → IsValid una nxt sb
    → Near una l
    → Near una r
    → offset_from r una ≤ offset_from nxt una
    → Near una x
    → IsValid una nxt (mark_rexmit sb l r)
      × (is_rexmit (mark_rexmit sb l r) x ≡ (is_rexmit sb x || (ge x l && lt x r)))
      × (is_sacked (mark_rexmit sb l r) x ≡ is_sacked sb x)
unfolding mark_rexmit is_rexmit is_sacked
mark_rexmit-IsValid una nxt l r x sb v nl nr h nx = elim (Bool-cases (lt l r)) [
  | inl some_bytes ↦
      let inserted =
        insert_run_lem una nxt sb.rexmit l r v.rexmit_runs nl nr
          (ground (arith, compares una l r nl nr)) h in
      rw some_bytes (
        record { window = v.window; sacked_runs = v.sacked_runs; rexmit_runs = inserted.0 },
        inserted.1 x nx,
        refl,
      )
  | inr empty ↦ rw empty (
    v,
    ground (arith, compares una l r nl nr, compares una x l nx nl, compares una x r nx nr),
    refl,
  )
]

-- Beginning, leaving and abandoning a recovery keep the scoreboard valid; a timeout and the exit
-- forget every retransmission mark and keep what is SACKed.
pub recovery-IsValid :
    (una nxt point x : SeqNumber) (sb : Scoreboard)
    → IsValid una nxt sb
    → IsValid una nxt (begin_recovery sb point)
      × IsValid una nxt (exit_recovery sb)
      × IsValid una nxt (on_rto sb)
      × (is_rexmit (on_rto sb) x ≡ false)
      × (is_sacked (on_rto sb) x ≡ is_sacked sb x)
unfolding begin_recovery exit_recovery on_rto is_rexmit is_sacked
recovery-IsValid una nxt point x sb v = (
  record { window = v.window; sacked_runs = v.sacked_runs; rexmit_runs = v.rexmit_runs },
  record { window = v.window; sacked_runs = v.sacked_runs; rexmit_runs = tt },
  record { window = v.window; sacked_runs = v.sacked_runs; rexmit_runs = tt },
  refl,
  refl,
)
