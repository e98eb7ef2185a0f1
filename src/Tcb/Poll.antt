-- ===== src/Tcb/Poll.antt =====
-- `poll_transmit` of tcp-core/src/tcb.rs.
use ferrumnet.Prelude.{false, [], Option, some, none, u32, ◌==◌, if◌then◌else◌}
use ferrumnet.Seq.{SeqNumber, add}
use ferrumnet.Time.{Instant}
use ferrumnet.State.{State, closed, listen, syn_sent, syn_received, time_wait}
use ferrumnet.Congestion.{CongestionControl}
use ferrumnet.Wire.Tcp.{flag_syn}
use ferrumnet.Tcb.{Tcb}
use ferrumnet.Tcb.Timers.{start_rtx}
use ferrumnet.Tcb.Build.{build, build_syn, build_rst}
use ferrumnet.Tcb.Transmit.{Sent, or_next, build_only, transmit_data_or_fin}

module _ {C : Type 0} where
  -- `take_needs_ack`, and the ACK.
  unfoldable pub owed_ack : Tcb C → Sent C
  unfolding build_only
  owed_ack t =
      if t.needs_ack then build_only (record t { needs_ack = false }) t.snd_nxt 0 [] else (none, t)

  unfoldable pub poll_syn_sent : Tcb C → Instant → Sent C
  unfolding build_syn start_rtx
  poll_syn_sent t now =
      if t.snd_nxt == t.iss
      then (some (build_syn t), start_rtx (record t { snd_nxt = add t.iss 1 }) now)
      else if t.retransmit
      then (some (build_syn t), record t { retransmit = false })
      else (none, t)

  unfoldable pub poll_syn_received : Tcb C → Instant → Sent C
  unfolding build build_only start_rtx owed_ack
  poll_syn_received t now =
      let built = build t t.iss flag_syn [] in
      if t.snd_nxt == t.iss
      then (some built.0, start_rtx (record built.1 { snd_nxt = add t.iss 1 }) now)
      else if t.retransmit
      then build_only (record t { retransmit = false }) t.iss flag_syn []
      else owed_ack t

  unfoldable pub poll_state : CongestionControl C → State → Tcb C → Instant → Sent C
  unfolding poll_syn_sent poll_syn_received owed_ack transmit_data_or_fin
  poll_state ops closed t now = (none, t)
  poll_state ops listen t now = (none, t)
  poll_state ops syn_sent t now = poll_syn_sent t now
  poll_state ops syn_received t now = poll_syn_received t now
  poll_state ops time_wait t now = owed_ack t
  poll_state ops _ t now = or_next (transmit_data_or_fin ops t now) owed_ack

  -- A reset that is owed goes first.
  unfoldable pub poll_reset : CongestionControl C → Option SeqNumber → Tcb C → Instant → Sent C
  unfolding poll_state build_rst
  poll_reset ops none t now = poll_state ops t.state t now
  poll_reset ops (some seq) t now = (some (build_rst t seq), record t { pending_reset = none })

  unfoldable pub poll_transmit : CongestionControl C → Tcb C → Instant → Sent C
  unfolding poll_reset
  poll_transmit ops t now =
      let u : Tcb C = record t { cur_tsval = u32 now.micros } in
      poll_reset ops u.pending_reset u now
