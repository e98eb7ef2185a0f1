-- ===== src/Tcb/Segment/Guards.antt =====
-- When tcp-core/src/tcb.rs takes a segment for a reset.
use ferrumnet.Prelude.{
  ℕ, suc, zero, List, ◌≡◌, inl, inr, refl, ap, ◌∙◌, Bool, true, false, not, ◌&&◌, ◌==◌, length,
  if◌then◌else◌, if_both, Bool-cases, is_some, ltb, leb, min, u8_max, u32, ◌+◌,
}
use ferrumnet.Seq.{SeqNumber, le, add}
use ferrumnet.Buffers.{write}
use ferrumnet.Reasm.{Reasm, pop_contiguous, discard_below}
use ferrumnet.Time.{Instant, saturating_micros_since}
use ferrumnet.State.{
  State, closed, listen, syn_sent, syn_received, established, fin_wait1, fin_wait2, close_wait,
  closing, last_ack, time_wait, same_state,
}
use ferrumnet.Congestion.{CongestionControl}
use ferrumnet.Wire.Tcp.{TcpPacket, seq, flags, fin, syn, rst, ack_bit, payload}
use ferrumnet.Tcb.{Tcb, challenge_ack_limit}
use ferrumnet.Tcb.Window.{seq_in_window, segment_acceptable, challenge_ack, renew_challenges}
use ferrumnet.Tcb.Timers.{arm_delayed_ack}
use ferrumnet.Tcb.Closing.{next_state, arm_on_entry, recompute_closing_state, arm_time_wait}
use ferrumnet.Tcb.Receive.{
  predates, is_at, recent_of, on_rst, on_syn, drain_runs, take_in_order, take_bytes, count_mark,
  schedule_ack, take_data, take_fin, take_pending_fin, left_trim, clean_in_order,
}
use ferrumnet.Tcb.Segment.{finish, take_ack, accept, on_segment, seg_ts, seg_len}
use ferrumnet.Tcb.Segment.Same.{Same, itself, step, alone, before, same-take_ack}

module _ {C : Type 0} where
  same-drain_runs : (fuel : ℕ) (t : Tcb C) → Same t (drain_runs fuel t)
  unfolding drain_runs
  same-drain_runs zero t = itself t
  same-drain_runs (suc fuel) t =
      let popped : List ℕ × Reasm = pop_contiguous t.reasm t.rcv_nxt in
      let n : ℕ = (write t.rx popped.0).0 in
      let moved : Tcb C = record t {
        reasm = popped.1;
        rx = (write t.rx popped.0).1;
        rcv_nxt = add t.rcv_nxt (u32 n);
      } in
      let rest : Same t (drain_runs fuel moved) =
        before t moved _ (alone t moved refl refl refl refl refl) (same-drain_runs fuel moved) in
      if_both (Same t) (length popped.0 == 0) _ _ (alone t _ refl refl refl refl refl) (
        if_both (Same t) (ltb n (length popped.0)) _ (drain_runs fuel moved)
          (alone t _ refl refl refl refl refl) rest)

  same-take_in_order : (t : Tcb C) (body : List ℕ) → Same t (take_in_order t body)
  unfolding take_in_order
  same-take_in_order t body =
      let rcv_nxt : SeqNumber = add t.rcv_nxt (u32 (write t.rx body).0) in
      let kept : Reasm = discard_below t.reasm rcv_nxt in
      let u : Tcb C = record t { rx = (write t.rx body).1; rcv_nxt = rcv_nxt; reasm = kept } in
      if_both (Same t) t.sack_enabled (drain_runs (suc (length kept.runs)) u) _
        (before t u _ (alone t u refl refl refl refl refl)
          (same-drain_runs (suc (length kept.runs)) u))
        (alone t _ refl refl refl refl refl)

  same-take_bytes : (t : Tcb C) (s : SeqNumber) (body : List ℕ) → Same t (take_bytes t s body)
  unfolding take_bytes
  same-take_bytes t s body = if_both (Same t) _ _ _ (itself t) (
      if_both (Same t) _ _ _ (same-take_in_order t body)
        (if_both (Same t) t.sack_enabled _ _ (alone t _ refl refl refl refl refl) (itself t)))

  same-schedule_ack : (t : Tcb C) (clean : Bool) (now : Instant) → Same t (schedule_ack t clean now)
  unfolding schedule_ack arm_delayed_ack
  same-schedule_ack t clean now =
      if_both (Same t) (not clean) _ _ (alone t _ refl refl refl refl refl) (
        if_both (Same t) (leb 2 (min (t.unacked_segs + 1) u8_max)) _ _
          (alone t _ refl refl refl refl refl)
          (if_both (Same t) (is_some t.delayed_ack_deadline) _ _
            (alone t _ refl refl refl refl refl) (alone t _ refl refl refl refl refl)))

  same-take_data :
      (t : Tcb C) (s : SeqNumber) (body : List ℕ) (ce : Bool) (now : Instant)
      → Same t (take_data t s body ce now)
  unfolding take_data count_mark
  same-take_data t s body ce now =
      let fresh : SeqNumber × List ℕ = left_trim t.rcv_nxt s body in
      let u : Tcb C = take_bytes t fresh.0 fresh.1 in
      if_both (Same t) (length body == 0) _ _ (itself t) (
        before t (count_mark t u ce) _
          (step t u (count_mark t u ce) (same-take_bytes t fresh.0 fresh.1) refl refl refl refl
            refl)
          (same-schedule_ack (count_mark t u ce) (clean_in_order t fresh) now))

  same-take_fin : (t : Tcb C) (s : SeqNumber) → Same t (take_fin t s)
  unfolding take_fin
  same-take_fin t s = alone t _ refl refl refl refl refl

  same-take_pending_fin : (t : Tcb C) → Same t (take_pending_fin t)
  unfolding take_pending_fin
  same-take_pending_fin t =
      if_both (Same t) (is_at t.pending_fin t.rcv_nxt && not t.peer_fin_seen) _ _
        (alone t _ refl refl refl refl refl) (itself t)

  same-arm_on_entry : (s : State) (t : Tcb C) (now : Instant) → Same t (arm_on_entry s t now)
  unfolding arm_on_entry arm_time_wait
  same-arm_on_entry closed t now = itself t
  same-arm_on_entry listen t now = itself t
  same-arm_on_entry syn_sent t now = itself t
  same-arm_on_entry syn_received t now = itself t
  same-arm_on_entry established t now = itself t
  same-arm_on_entry fin_wait1 t now = itself t
  same-arm_on_entry fin_wait2 t now = alone t _ refl refl refl refl refl
  same-arm_on_entry close_wait t now = itself t
  same-arm_on_entry closing t now = itself t
  same-arm_on_entry last_ack t now = itself t
  same-arm_on_entry time_wait t now = alone t _ refl refl refl refl refl

  same-recompute : (t : Tcb C) (now : Instant) → Same t (recompute_closing_state t now)
  unfolding recompute_closing_state
  same-recompute t now =
      let u : Tcb C = record t { state = next_state t.state t.fin_acked t.peer_fin_seen } in
      if_both (Same t) (same_state u.state t.state) u (arm_on_entry u.state u now)
        (alone t u refl refl refl refl refl)
        (before t u _ (alone t u refl refl refl refl refl) (same-arm_on_entry u.state u now))

  same-finish : (t : Tcb C) (tcp : TcpPacket) (now : Instant) → Same t (finish t tcp now)
  unfolding finish
  same-finish t tcp now =
      let u : Tcb C =
        if fin (flags tcp) then take_fin t (add (seq tcp) (u32 (length (payload tcp)))) else t in
      let h : Same t u =
        if_both (Same t) (fin (flags tcp)) _ _
          (same-take_fin t (add (seq tcp) (u32 (length (payload tcp))))) (itself t) in
      let k : Same t (take_pending_fin u) =
        before t u (take_pending_fin u) h (same-take_pending_fin u) in
      before t (take_pending_fin u) _ k (same-recompute (take_pending_fin u) now)

  same-accept :
      (ops : CongestionControl C) (t : Tcb C) (tcp : TcpPacket) (ce : Bool) (now : Instant)
      → Same t (accept ops t tcp ce now)
  unfolding accept
  same-accept ops t tcp ce now =
      let u : Tcb C = record t {
        ts_recent =
            if le (seq tcp) t.rcv_nxt then recent_of (seg_ts t tcp) t.ts_recent else t.ts_recent;
      } in
      let acked : Bool × Tcb C = take_ack ops u tcp now in
      let held : Tcb C = take_data acked.1 (seq tcp) (payload tcp) ce now in
      let h : Same t u = alone t u refl refl refl refl refl in
      let k : Same t acked.1 = before t u acked.1 h (same-take_ack ops u tcp now) in
      let d : Same t held =
        before t acked.1 held k (same-take_data acked.1 (seq tcp) (payload tcp) ce now) in
      if_both (Same t) (not (ack_bit (flags tcp))) u _ h (
        if_both (Same t) acked.0 (finish held tcp now) acked.1
          (before t held _ d (same-finish held tcp now)) k)

  same-renew : (t : Tcb C) (now : Instant) → Same t (renew_challenges t now)
  unfolding renew_challenges
  same-renew t now =
      if_both (Same t) (leb 1_000_000 (saturating_micros_since now t.challenge_window_start)) _ _
        (alone t _ refl refl refl refl refl) (itself t)

  same-challenge_ack : (t : Tcb C) (now : Instant) → Same t (challenge_ack t now)
  unfolding challenge_ack
  same-challenge_ack t now =
      let u : Tcb C = renew_challenges t now in
      let h : Same t u = same-renew t now in
      if_both (Same t) (ltb u.challenge_count challenge_ack_limit) _ u
        (step t u _ h refl refl refl refl refl) h

  same-on_syn : (t : Tcb C) (s : SeqNumber) (now : Instant) → Same t (on_syn t s now)
  unfolding on_syn
  same-on_syn t s now =
      if_both (Same t) (same_state t.state syn_received && s == t.irs) _ _
        (alone t _ refl refl refl refl refl)
        (if_both (Same t) (seq_in_window t s) _ _ (same-challenge_ack t now) (itself t))

  -- On every path but that of a reset
  same-on_segment :
      (ops : CongestionControl C) (t : Tcb C) (now : Instant) (tcp : TcpPacket) (ce : Bool)
      → same_state t.state syn_sent ≡ false
      → rst (flags tcp) ≡ false
      → Same t (on_segment ops t now tcp ce)
  unfolding on_segment arm_time_wait
  same-on_segment ops t now tcp ce h k =
      rw (h, k)
        (if_both (Same t) (same_state t.state time_wait) _ _ (alone t _ refl refl refl refl refl) (
          if_both (Same t) (syn (flags tcp)) _ _ (same-on_syn t (seq tcp) now) (
            if_both (Same t) (predates (seg_ts t tcp) t.ts_recent) _ _
              (alone t _ refl refl refl refl refl)
              (if_both (Same t) (not (segment_acceptable t (seq tcp) (seg_len tcp))) _ _
                (alone t _ refl refl refl refl refl) (same-accept ops t tcp ce now)))))

  -- Whether a segment with RST set aborts.
  abbrev pub aborts : Tcb C → TcpPacket → Bool
  aborts t tcp = rst (flags tcp) && (seq_in_window t (seq tcp) && seq tcp == t.rcv_nxt)

  reset-on_rst :
      (t : Tcb C) (s : SeqNumber) (now : Instant)
      → t.reset ≡ false
      → (on_rst t s now).reset ≡ (seq_in_window t s && s == t.rcv_nxt)
  unfolding on_rst
  reset-on_rst t s now h = elim (Bool-cases (seq_in_window t s)) [
    | inl e ↦ elim (Bool-cases (s == t.rcv_nxt)) [
      | inl f ↦ rw (e, f) refl
      | inr f ↦ rw (e, f) ((same-challenge_ack t now).reset_same ∙ h)
    ]
    | inr e ↦ rw e h
  ]

  rst-on_segment :
      (ops : CongestionControl C) (t : Tcb C) (now : Instant) (tcp : TcpPacket) (ce : Bool)
      → same_state t.state syn_sent ≡ false
      → rst (flags tcp) ≡ true
      → on_segment ops t now tcp ce ≡ on_rst t (seq tcp) now
  unfolding on_segment
  rst-on_segment ops t now tcp ce h k = rw (h, k) refl

  -- Past SYN-SENT, a segment resets the connection exactly if it has RST set and lies in the window
  -- at the very number that is expected next; no other segment does, whatever it holds, and the
  -- window, the sequence number and the flags alone decide.
  pub reset-on_segment :
      (ops : CongestionControl C) (t : Tcb C) (now : Instant) (tcp : TcpPacket) (ce : Bool)
      → same_state t.state syn_sent ≡ false
      → t.reset ≡ false
      → (on_segment ops t now tcp ce).reset ≡ aborts t tcp
  reset-on_segment ops t now tcp ce h k = elim (Bool-cases (rst (flags tcp))) [
    | inl e ↦
        ap (λ u. u.reset) (rst-on_segment ops t now tcp ce h e)
        ∙ rw e (reset-on_rst t (seq tcp) now k)
    | inr e ↦ (same-on_segment ops t now tcp ce h e).reset_same ∙ rw e k
  ]
