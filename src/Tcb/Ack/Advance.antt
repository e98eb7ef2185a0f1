-- ===== src/Tcb/Ack/Advance.antt =====
-- What `process_ack` of tcp-core/src/tcb.rs does to the send window, the ring and the timer.
use ferrumnet.Prelude.{
  ℕ, ◌^◌, ◌<◌, ◌≡◌, arith, Bool, true, false, Option, drop, length, min, ltb, leb, ◌==◌, ◌&&◌,
  is_some, if◌then◌else◌, Bool-cases, inl, inr, ◌∙◌,
}
use ferrumnet.Seq.{SeqNumber, offset_from, gt}
use ferrumnet.Seq.Order.{offset_from_self}
use ferrumnet.Runs.Order.{compares}
use ferrumnet.Time.{Instant}
use ferrumnet.Buffers.{RingBuffer, consume}
use ferrumnet.Congestion.{CongestionControl}
use ferrumnet.Tcb.{Tcb}
use ferrumnet.Tcb.Window.{update_window, opened}
use ferrumnet.Tcb.Timers.{restart_rtx}
use ferrumnet.Tcb.Ack.{
  take_acked, take_marks, trim_board, drain, measure_rtt, rearm, advance, process_ack,
}

-- What the send side has in flight and how it is watched.
pub record Flight : Type 0 where
  pub snd_una : SeqNumber
  pub snd_nxt : SeqNumber
  pub tx : RingBuffer
  pub armed : Bool

abbrev pub flight : {C : Type 0} → Tcb C → Flight
flight t = record {
  snd_una = t.snd_una;
  snd_nxt = t.snd_nxt;
  tx = t.tx;
  armed = is_some t.rtx_deadline;
}

update_window-flight :
    {C : Type 0}
    → (t : Tcb C) (seg_seq seg_ack : SeqNumber) (seg_wnd : ℕ)
    → flight (update_window t seg_seq seg_ack seg_wnd) ≡ flight t
unfolding update_window opened
update_window-flight t seg_seq seg_ack seg_wnd = ground arith

advance-flight :
    {C : Type 0}
    → (ops : CongestionControl C) (t : Tcb C) (seg_ack : SeqNumber) (seg_tsecr : Option ℕ) (ace : ℕ)
      (now : Instant)
    → flight (advance ops t seg_ack seg_tsecr ace now) ≡ record {
      snd_una = seg_ack;
      snd_nxt = t.snd_nxt;
      tx = (consume t.tx (min (offset_from seg_ack t.snd_una) (length t.tx.buf))).1;
      armed = if seg_ack == t.snd_nxt then false else true;
    }
unfolding advance take_acked take_marks trim_board drain measure_rtt rearm restart_rtx
advance-flight ops t seg_ack seg_tsecr ace now = elim (Bool-cases (seg_ack == t.snd_nxt)) [
  | inl e ↦ rw e
  | inr e ↦ rw e
]

-- The flight after `a` of its bytes are acknowledged.
abbrev pub acked : Flight → SeqNumber → ℕ → ℕ → Flight
acked f seg_ack a total = record f {
  snd_una = seg_ack;
  tx = record f.tx { buf = drop (min (min a (length f.tx.buf)) (length f.tx.buf)) f.tx.buf };
  armed = ltb a total;
}

same_number :
    (una a b : SeqNumber)
    → a < 2 ^ 32
    → b < 2 ^ 32
    → una < 2 ^ 32
    → (a == b) ≡ (offset_from a una == offset_from b una)
unfolding offset_from
same_number una a b p q r = ground arith

-- Let less than 2 ^ 31 be in flight, and the ACK be at less than 2 ^ 31 from `snd_una`. It is refused
-- exactly if it lies beyond `snd_nxt`. If it acknowledges something, `snd_una` moves to it, as many
-- bytes as it covers leave the ring, and the retransmission timer runs on exactly if something is
-- still in flight; otherwise all of this stays.
pub process_ack-flight :
    {C : Type 0}
    → (ops : CongestionControl C) (t : Tcb C) (seg_seq seg_ack : SeqNumber) (seg_wnd : ℕ)
      (seg_tsecr : Option ℕ) (ace : ℕ) (now : Instant)
    → t.snd_una < 2 ^ 32
    → t.snd_nxt < 2 ^ 32
    → seg_ack < 2 ^ 32
    → offset_from t.snd_nxt t.snd_una < 2 ^ 31
    → offset_from seg_ack t.snd_una < 2 ^ 31
    → ((process_ack ops t seg_seq seg_ack seg_wnd seg_tsecr ace now).0
        ≡ leb (offset_from seg_ack t.snd_una) (offset_from t.snd_nxt t.snd_una))
      × (flight (process_ack ops t seg_seq seg_ack seg_wnd seg_tsecr ace now).1 ≡ (
          if leb (offset_from seg_ack t.snd_una) (offset_from t.snd_nxt t.snd_una)
            && ltb 0 (offset_from seg_ack t.snd_una)
          then acked
              (flight t)
              seg_ack
              (offset_from seg_ack t.snd_una)
              (offset_from t.snd_nxt t.snd_una)
          else flight t))
unfolding process_ack
process_ack-flight ops t seg_seq seg_ack seg_wnd seg_tsecr ace now hu hn ha f a =
    let beyond = (compares t.snd_una seg_ack t.snd_nxt (omega arith) (omega arith)).2 in
    let zero_offset = offset_from_self t.snd_una in
    let new_data =
      (compares t.snd_una seg_ack t.snd_una (omega arith) (omega (arith, zero_offset))).2 in
    let all_acked = same_number t.snd_una seg_ack t.snd_nxt ha hn hu in
    elim (Bool-cases (gt seg_ack t.snd_nxt)) [
      | inl e ↦ rw e (ground (arith, beyond, e))
      | inr e ↦ elim (Bool-cases (gt seg_ack t.snd_una)) [
        | inl g ↦
            rw (e, g)
              (
                ground (arith, beyond, e),
                update_window-flight (advance ops t seg_ack seg_tsecr ace now) seg_seq seg_ack
                      seg_wnd
                    ∙ advance-flight ops t seg_ack seg_tsecr ace now
                    ∙ (unfold consume in
                        ground (arith, beyond, new_data, zero_offset, all_acked, e, g)),
              )
        | inr g ↦
            rw (e, g)
              (ground (
                arith,
                beyond,
                new_data,
                zero_offset,
                e,
                g,
                update_window-flight t seg_seq seg_ack seg_wnd,
              ))
      ]
    ]
