-- ===== src/Tcb/Open/Steps.antt =====
-- The steps of the handshake of tcp-core/src/tcb.rs.
use ferrumnet.Prelude.{
  ◌+◌, ◌^◌, ◌<◌, ◌≡◌, refl, ap, ◌∙◌, arith, Bool, true, false, ◌&&◌, [], some, none, u32,
}
use ferrumnet.Seq.{gt, le, add}
use ferrumnet.Time.{Instant}
use ferrumnet.State.{syn_sent, syn_received, same_state}
use ferrumnet.Congestion.{CongestionControl}
use ferrumnet.Wire.Tcp.{TcpPacket, ack, flags, syn, rst, ack_bit, flag_syn, flag_ack}
use ferrumnet.Tcb.{Tcb}
use ferrumnet.Tcb.Timers.{start_rtx}
use ferrumnet.Tcb.Build.{build}
use ferrumnet.Tcb.Open.{take_syn, on_segment_syn_sent}
use ferrumnet.Tcb.Segment.{on_segment}
use ferrumnet.Tcb.Poll.{poll_transmit, poll_reset, poll_state}
use ferrumnet.Tcb.Open.Syn.{syn_ack_first}

module _ {C : Type 0} (ops : CongestionControl C) where
  pub poll-syn_received :
      (t : Tcb C) (now : Instant)
      → t.state ≡ syn_received
      → t.pending_reset ≡ none
      → t.snd_nxt ≡ t.iss
      → let u : Tcb C = record t { cur_tsval = u32 now.micros } in
        poll_transmit ops t now ≡ (
          some (build u t.iss flag_syn []).0,
          start_rtx (record (build u t.iss flag_syn []).1 { snd_nxt = add t.iss 1 }) now,
        )
  unfolding poll_transmit poll_reset poll_state
  poll-syn_received t now s p e =
      let u : Tcb C = record t { cur_tsval = u32 now.micros } in
      ap (λ o. poll_reset ops o u now) p
      ∙ ap (λ x. poll_state ops x u now) s
      ∙ syn_ack_first u now e

  pub in_syn_sent :
      (t : Tcb C) (now : Instant) (p : TcpPacket) (ce : Bool)
      → t.state ≡ syn_sent
      → on_segment ops t now p ce ≡ on_segment_syn_sent ops t p
  unfolding on_segment
  in_syn_sent t now p ce s =
      let b : same_state t.state syn_sent ≡ true = ap (λ x. same_state x syn_sent) s in rw b refl

  -- A SYN that acknowledges ours.
  pub syn_ack-taken :
      (t : Tcb C) (p : TcpPacket)
      → t.iss < 2 ^ 32
      → t.snd_nxt ≡ add t.iss 1
      → flags p ≡ flag_syn + flag_ack
      → ack p ≡ add t.iss 1
      → on_segment_syn_sent ops t p ≡ take_syn ops t p true
  unfolding on_segment_syn_sent
  syn_ack-taken t p h n f a =
      let acks : ack_bit (flags p) ≡ true = ap ack_bit f in
      let syns : syn (flags p) ≡ true = ap syn f in
      let no_rst : rst (flags p) ≡ false = ap rst f in
      let fresh : (gt (ack p) t.iss && le (ack p) t.snd_nxt) ≡ true =
        (unfold gt in unfold le in unfold add in ground (arith, n, a, h)) in
      rw (acks, fresh, no_rst, syns) refl
