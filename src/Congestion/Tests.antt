-- ===== src/Congestion/Tests.antt =====
-- The controllers of tcp-core/src/congestion.rs on concrete events.
use ferrumnet.Prelude.{ℕ, ◌≡◌, refl, arith, List, [], ◌∷◌}
use ferrumnet.Time.{Instant, from_micros}
use ferrumnet.Congestion.Fixed.{fixed, fixed-Lawful}
use ferrumnet.Congestion.Reno
use ferrumnet.Congestion.Reno.Window.{ack, dup_ack, rto, resize}
use ferrumnet.Congestion.Scalable.Envelope.{Fits}
use ferrumnet.Congestion.Dctcp.{new, on_dup_ack}
use ferrumnet.Congestion.Dctcp.Unmarked.{
  Signal, event, unmarked, reno_of, reno_run, dctcp_run, dctcp_run-eq-reno_run,
}
use ferrumnet.Congestion.Machine.{ControlProgram, sub_op, div_op, seed_prog, aimd, synth_eval}
use ferrumnet.Congestion.Synth.{with_program}
use ferrumnet.Congestion.Synth.Safe
use ferrumnet.Congestion.Synth.Safe.{Event, run, run-Fits}

abbrev now : Instant
now = from_micros 7

abbrev signals : List Signal
signals =
    event (ack now 1_460)
    ∷ (unmarked 20_000
        ∷ (event (dup_ack now 9_000) ∷ (event (rto now 9_000) ∷ (event (resize 1_000) ∷ []))))

dctcp_run-eq-reno_run_example :
    (reno_of (dctcp_run (new {F = ℕ} 1_460) signals) ≡ reno_run (Reno.new 1_460) signals)
    × ((on_dup_ack (dctcp_run (new {F = ℕ} 1_460) signals) 5_000).0
        ≡ (Reno.on_dup_ack (reno_run (Reno.new 1_460) signals) now 5_000).0)
dctcp_run-eq-reno_run_example = dctcp_run-eq-reno_run ℕ 1_460 signals now 5_000

-- A law that subtracts and divides where the seed does not.
abbrev wild : ControlProgram
wild = record { inc = seed_prog sub_op 6 7; md = seed_prog div_op 1 4; ecn = seed_prog sub_op 3 7 }

abbrev events : List Event
events =
    Safe.ack 1_460
    ∷ (Safe.marks 20_000 9_000
        ∷ (Safe.rtt 30_000
            ∷ (Safe.recovery 90_000
                ∷ (Safe.ack 70_000 ∷ (Safe.resize 9_000 ∷ (Safe.rto 4_000 ∷ []))))))

run-Fits_example : Fits {F = ℕ} (run (with_program 1_460 wild) events).w
run-Fits_example =
    run-Fits fixed-Lawful wild 1_460 events (omega arith) (omega arith)
      (omega arith, omega arith, tt)

-- The seed on eight signals: one segment for each round trip.
seed_step :
    synth_eval {F = ℕ} aimd.inc (
      10_000_000
      ∷ (9_000_000
          ∷ (1_000_000 ∷ (500_000 ∷ (1_000_000 ∷ (500_000 ∷ (1_000_000 ∷ (2_000_000 ∷ []))))))))
    ≡ 1_000_000
unfolding synth_eval aimd
seed_step = refl
