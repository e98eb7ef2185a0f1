-- ===== src/Congestion/Reno/Tests.antt =====
-- Reno of tcp-core/src/congestion.rs on concrete events.
use ferrumnet.Prelude.{arith, List, [], ◌∷◌}
use ferrumnet.Time.{Instant, from_micros}
use ferrumnet.Congestion.Reno.{new}
use ferrumnet.Congestion.Reno.Window.{
  Event, ack, dup_ack, recovery, rto, resize, EventsValid, IsValid, run, run-IsValid,
}

abbrev now : Instant
now = from_micros 7

abbrev events : List Event
events =
    ack now 1460 ∷ (dup_ack now 9000 ∷ (recovery now 9000 ∷ (rto now 500 ∷ (resize 9000 ∷ []))))

events-valid : EventsValid events
events-valid = ground arith

run-IsValid_example : IsValid (run (new 1460) events)
run-IsValid_example = run-IsValid 1460 events (omega arith) (omega arith) events-valid
