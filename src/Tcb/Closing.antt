-- ===== src/Tcb/Closing.antt =====
-- `recompute_closing_state` of tcp-core/src/tcb.rs, and the timers it arms.
pub mod Arcs
use ferrumnet.Prelude.{ℕ, Bool, true, false, Option, none, some, ◌==◌, if◌then◌else◌}
use ferrumnet.Time.{Instant, plus_millis}
use ferrumnet.State.{
  State, closed, listen, syn_sent, syn_received, established, fin_wait1, fin_wait2, close_wait,
  closing, last_ack, time_wait, same_state,
}
use ferrumnet.Tcb.{Tcb, time_wait_millis, fin_wait2_millis}

-- The `match` on the state, with `fin_acked` and `peer_fin_seen`.
unfoldable pub next_state : State → Bool → Bool → State
next_state fin_wait1 true true = time_wait
next_state fin_wait1 true false = fin_wait2
next_state fin_wait1 false true = closing
next_state fin_wait1 false false = fin_wait1
next_state fin_wait2 fin_acked peer_fin_seen = if peer_fin_seen then time_wait else fin_wait2
next_state closing fin_acked peer_fin_seen = if fin_acked then time_wait else closing
next_state last_ack fin_acked peer_fin_seen = if fin_acked then closed else last_ack
next_state established fin_acked peer_fin_seen = if peer_fin_seen then close_wait else established
next_state other fin_acked peer_fin_seen = other

module _ {C : Type 0} where
  unfoldable pub arm_time_wait : Tcb C → Instant → Tcb C
  arm_time_wait t now = record t {
    time_wait_deadline = some (plus_millis now time_wait_millis);
    rtx_deadline = none;
    persist_deadline = none;
  }

  -- The timer of a state that is entered.
  unfoldable pub arm_on_entry : State → Tcb C → Instant → Tcb C
  arm_on_entry time_wait t now = arm_time_wait t now
  arm_on_entry fin_wait2 t now = record t {
    time_wait_deadline = some (plus_millis now fin_wait2_millis);
  }
  arm_on_entry _ t now = t

  unfoldable pub recompute_closing_state : Tcb C → Instant → Tcb C
  recompute_closing_state t now =
      let u : Tcb C = record t { state = next_state t.state t.fin_acked t.peer_fin_seen } in
      if same_state u.state t.state then u else arm_on_entry u.state u now
