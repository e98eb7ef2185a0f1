-- ===== src/Tcb/Transmit.antt =====
-- `poll_transmit` and `transmit_data_or_fin` of tcp-core/src/tcb.rs. A step that sends nothing passes
-- its state on to the next, as a `return` in the source ends the call.
pub mod Window
use ferrumnet.Prelude.{
  ℕ, zero, suc, ◌+◌, ◌-◌, Bool, true, false, not, ◌&&◌, ◌||◌, List, [], ◌∷◌, length, take, drop,
  Option, some, none, min, u32, ltb, ◌==◌, is_some, replicate, if◌then◌else◌,
}
use ferrumnet.Seq.{SeqNumber, add, offset_from}
use ferrumnet.Time.{Instant}
use ferrumnet.Buffers.{RingBuffer, peek, len}
use ferrumnet.Sack.{pipe, in_recovery, next_seg, unsacked_run_len, mark_rexmit, set_rescue_done}
use ferrumnet.State.{
  State, closed, listen, syn_sent, syn_received, time_wait, established, close_wait, fin_wait1,
  last_ack, fin_wait2, closing,
}
use ferrumnet.Congestion.{CongestionControl}
use ferrumnet.Wire.Tcp.{flag_psh, flag_fin, flag_syn}
use ferrumnet.Datagram.{Frame}
use ferrumnet.Tcb.{Tcb}
use ferrumnet.Tcb.Window.{take_needs_ack}
use ferrumnet.Tcb.Timers.{start_rtx, arm_persist, pace_allowance, arm_pace}
use ferrumnet.Tcb.Build.{build, build_syn, build_rst, max_segment_payload}

-- `let mut payload = vec![0u8; n]; self.tx.peek(off, &mut payload);`
unfoldable pub peeked : RingBuffer → ℕ → ℕ → List ℕ
unfolding peek
peeked tx off n = (peek tx off (replicate n 0)).1

abbrev pub psh_if : Bool → ℕ
psh_if psh = if psh then flag_psh else 0

-- What a step sends, and the state after it.
abbrev pub Sent : Type 0 → Type 0
Sent C = Option Frame × Tcb C

-- A step, and the next one if it sent nothing.
abbrev pub or_next : {C : Type 0} → Sent C → (Tcb C → Sent C) → Sent C
or_next (some f, t) next = (some f, t)
or_next (none, t) next = next t

abbrev pub after_fin : State → State
after_fin established = fin_wait1
after_fin close_wait = last_ack
after_fin other = other

module _ {C : Type 0} where
  -- `self.build(..)` and `self.start_rtx(now)`
  unfoldable pub build_timed : Tcb C → SeqNumber → ℕ → List ℕ → Instant → Sent C
  build_timed t seq extra_flags body now =
      let built = build t seq extra_flags body in (some built.0, start_rtx built.1 now)

  -- `self.build(..)`
  unfoldable pub build_only : Tcb C → SeqNumber → ℕ → List ℕ → Sent C
  build_only t seq extra_flags body =
      let built = build t seq extra_flags body in (some built.0, built.1)

  abbrev pub fin_lost : Tcb C → Bool
  fin_lost t = elim t.fin_seq [
    | none ↦ false
    | some fin_seq ↦ not t.fin_acked && t.snd_una == fin_seq
  ]

  -- 0. The oldest unacknowledged segment, or our FIN, again.
  unfoldable pub resend_oldest : Tcb C → Instant → Sent C
  unfolding build_timed peeked
  resend_oldest t now =
      let inflight = offset_from t.snd_nxt t.snd_una in
      let n = min (min inflight (len t.tx)) (max_segment_payload t) in
      let u : Tcb C = record t { retransmit = false } in
      if not (t.retransmit && ltb 0 inflight)
      then (none, t)
      else if ltb 0 n
      then build_timed u t.snd_una (psh_if (n == len t.tx)) (peeked t.tx 0 n) now
      else if fin_lost t
      then build_timed u t.snd_una flag_fin [] now
      else (none, u)

  -- 0.5. The repair of one hole, from its number on.
  unfoldable pub repair_at : Tcb C → SeqNumber → Bool → Instant → Sent C
  unfolding build peeked
  repair_at t seq is_rescue now =
      let off = offset_from seq t.snd_una in
      let hole = unsacked_run_len t.scoreboard seq t.snd_nxt in
      let n = min (min hole (max_segment_payload t)) (len t.tx - off) in
      let built = build t seq (psh_if (off + n == len t.tx)) (peeked t.tx off n) in
      let marked = mark_rexmit t.scoreboard seq (add seq (u32 n)) in
      if ltb 0 n
      then (
        some built.0,
        start_rtx
            (record built.1 {
              scoreboard = if is_rescue then set_rescue_done marked else marked;
              retransmitted = true;
              rtt_sample = none;
            })
            now,
      )
      else (none, t)

  abbrev pub repair_next : Tcb C → Option (SeqNumber × Bool) → Instant → Sent C
  repair_next t none now = (none, t)
  repair_next t (some (seq, is_rescue)) now = repair_at t seq is_rescue now

  abbrev pub flight_pipe : Tcb C → ℕ
  flight_pipe t =
      if t.sack_enabled
      then pipe t.scoreboard t.snd_una t.snd_nxt t.snd_mss
      else offset_from t.snd_nxt t.snd_una

  -- 1. with a zero window of the peer: one byte at `snd_una`, if the persist timer fired.
  unfoldable pub probe : Tcb C → Instant → Sent C
  unfolding build_only peeked
  probe t now =
      let u : Tcb C = arm_persist t now in
      if u.send_probe
      then build_only (record u { send_probe = false }) t.snd_una 0 (peeked t.tx 0 1)
      else (none, u)

  -- 2. Our FIN, behind all data.
  unfoldable pub send_fin : Tcb C → Instant → Sent C
  unfolding build
  send_fin t now =
      let data_end = add t.snd_una (u32 (len t.tx)) in
      let built = build t data_end flag_fin [] in
      if t.fin_queued && (not t.fin_acked && t.snd_nxt == data_end)
      then (
        some built.0,
        record (start_rtx (record built.1 { fin_seq = some data_end; snd_nxt = add data_end 1 })
            now) { state = after_fin t.state },
      )
      else (none, t)

  -- What the pacing leaves of what the windows allow, with its timer.
  unfoldable pub pace : Option ℕ → Tcb C → ℕ → ℕ → Instant → ℕ × Tcb C
  pace none t allowed unsent_data now = (allowed, t)
  pace (some rate) t allowed unsent_data now =
      let paced =
        pace_allowance (record t { pace_deadline = none }) now rate (max_segment_payload t) in
      (
        min allowed paced.0,
        if ltb paced.0 allowed && ltb 0 unsent_data
            then arm_pace paced.1 now rate paced.0
            else paced.1,
      )

module _ {C : Type 0} (ops : CongestionControl C) where
  unfoldable pub repair : Tcb C → Instant → Sent C
  unfolding repair_at
  repair t now =
      if t.sack_enabled && (in_recovery t.scoreboard && ltb (flight_pipe t) (ops.cwnd t.cc))
      then repair_next t (next_seg t.scoreboard t.snd_una t.snd_nxt t.snd_mss) now
      else (none, t)

  -- 1. What the windows leave.
  abbrev pub room : Tcb C → ℕ
  room t = min (ops.cwnd t.cc - flight_pipe t) (t.snd_wnd - offset_from t.snd_nxt t.snd_una)

  -- A segment of new data.
  unfoldable pub send_new : Tcb C → ℕ → ℕ → ℕ → Instant → Sent C
  unfolding build peeked
  send_new t n unsent_data window_room now =
      let inflight = offset_from t.snd_nxt t.snd_una in
      let sent_data = min inflight (len t.tx) in
      let built =
        build t t.snd_nxt (psh_if (sent_data + n == len t.tx)) (peeked t.tx sent_data n) in
      let snd_nxt = add t.snd_nxt (u32 n) in
      let app_limited = n == unsent_data && ltb n window_room in
      (
        some built.0,
        start_rtx
            (record built.1 {
              snd_nxt = snd_nxt;
              rtt_sample =
                  if not (is_some t.rtt_sample) && not t.retransmitted
                  then some (now, snd_nxt)
                  else t.rtt_sample;
              pace_tokens =
                  if is_some (ops.pacing_rate t.cc) then t.pace_tokens - n else t.pace_tokens;
              cc = ops.on_transmit t.cc now snd_nxt (u32 n) inflight app_limited;
            })
            now,
      )

  unfoldable pub transmit_new : Tcb C → Instant → Sent C
  unfolding pace send_new probe
  transmit_new t now =
      let inflight = offset_from t.snd_nxt t.snd_una in
      let unsent_data = len t.tx - min inflight (len t.tx) in
      let paced = pace (ops.pacing_rate t.cc) t (room t) unsent_data now in
      let n = min (min paced.0 unsent_data) (max_segment_payload t) in
      if ltb 0 paced.0
      then (if ltb 0 n then send_new paced.1 n unsent_data (room t) now else (none, paced.1))
      else if ltb 0 unsent_data && (inflight == 0 && t.snd_wnd - inflight == 0)
      then probe paced.1 now
      else (none, paced.1)

  unfoldable pub transmit_data_or_fin : Tcb C → Instant → Sent C
  unfolding resend_oldest repair transmit_new send_fin
  transmit_data_or_fin t now =
      or_next (resend_oldest t now) (λ t1.
        or_next (repair t1 now) (λ t2. or_next (transmit_new t2 now) (λ t3. send_fin t3 now)))
