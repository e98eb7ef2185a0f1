-- ===== src/Tcb/Receive/Deliver.antt =====
-- The bytes that tcp-core/src/tcb.rs hands over to the receive buffer.
use ferrumnet.Prelude.{
  ℕ, ◌++◌, zero, suc, ◌+◌, ◌<◌, ◌≡◌, refl, ap, ◌∙◌, arith, Bool, true, false, not, List, length,
  length-drop, drop, min, ltb, ◌==◌, if◌then◌else◌, Bool-cases, if_both, leb, u8_max, is_some, inl,
  inr,
}
use ferrumnet.Seq.{SeqNumber, offset_from}
use ferrumnet.Time.{Instant}
use ferrumnet.Buffers.{write}
use ferrumnet.Buffers.Laws.{IsValid}
use ferrumnet.Reasm.{Reasm, insert, pop_contiguous, reinsert_front}
use ferrumnet.Tcb.{Tcb}
use ferrumnet.Tcb.Timers.{arm_delayed_ack}
use ferrumnet.Tcb.Build.{reasm_right_edge}
use ferrumnet.Tcb.Receive.{
  left_trim, drain_runs, take_in_order, take_bytes, count_mark, schedule_ack, take_data,
  clean_in_order,
}
use ferrumnet.Tcb.Receive.Grown.{Grown, fitting, following, same_end, written_to}
use ferrumnet.Tcb.Receive.Drain.{runs-pop, Grown-take_in_order}

left_trim-some :
    (n : SeqNumber) (seg_seq : SeqNumber) (body : List ℕ)
    → length (left_trim n seg_seq body).1 == 0 ≡ false
    → length body == 0 ≡ false
unfolding left_trim
left_trim-some n seg_seq body h =
    ground (arith, length-drop (min (offset_from n seg_seq) (length body)) body)

left_trim-ahead :
    (n : SeqNumber) (seg_seq : SeqNumber) (body : List ℕ)
    → (left_trim n seg_seq body).0 == n ≡ false
    → left_trim n seg_seq body ≡ (seg_seq, body)
unfolding left_trim
left_trim-ahead n seg_seq body h = ground arith

if-reasm :
    {C : Type 0}
    → (b : Bool) (t u : Tcb C) → (if b then t else u).reasm ≡ (if b then t.reasm else u.reasm)
if-reasm true t u = refl
if-reasm false t u = refl

module _ {C : Type 0} where
  -- What the rest of the step does to the buffers: nothing.
  abbrev SameBytes : Tcb C → Tcb C → Type 0
  SameBytes t u = (u.rx ≡ t.rx) × (u.rcv_nxt ≡ t.rcv_nxt) × (u.reasm ≡ t.reasm)

  same-schedule_ack :
      (t : Tcb C) (clean : Bool) (now : Instant) → SameBytes t (schedule_ack t clean now)
  unfolding schedule_ack arm_delayed_ack
  same-schedule_ack t clean now =
      let P : Tcb C → Type 0 = SameBytes t in
      if_both P (not clean) _ _ (refl, refl, refl)
        (if_both P (leb 2 (min (t.unacked_segs + 1) u8_max)) _ _ (refl, refl, refl)
          (if_both P (is_some t.delayed_ack_deadline) _ _ (refl, refl, refl) (refl, refl, refl)))

  same-scheduled :
      (before t : Tcb C) (ce clean : Bool) (now : Instant)
      → SameBytes t (schedule_ack (count_mark before t ce) clean now)
  unfolding count_mark
  same-scheduled before t ce clean now = same-schedule_ack (count_mark before t ce) clean now

  bytes-take_data :
      (t : Tcb C) (seg_seq : SeqNumber) (body : List ℕ) (ce : Bool) (now : Instant)
      → length (left_trim t.rcv_nxt seg_seq body).1 == 0 ≡ false
      → SameBytes
          (take_bytes t (left_trim t.rcv_nxt seg_seq body).0 (left_trim t.rcv_nxt seg_seq body).1)
          (take_data t seg_seq body ce now)
  unfolding take_data
  bytes-take_data t seg_seq body ce now h = rw (left_trim-some t.rcv_nxt seg_seq body h) (
      same-scheduled t
        (take_bytes t (left_trim t.rcv_nxt seg_seq body).0 (left_trim t.rcv_nxt seg_seq body).1) ce
        (clean_in_order t (left_trim t.rcv_nxt seg_seq body)) now)

  take_bytes-in_order :
      (t : Tcb C) (seg_seq : SeqNumber) (body : List ℕ)
      → seg_seq == t.rcv_nxt ≡ true
      → length body == 0 ≡ false
      → take_bytes t seg_seq body ≡ take_in_order t body
  unfolding take_bytes
  take_bytes-in_order t seg_seq body h k = rw (k, h) refl

  -- A segment that covers `rcv_nxt`, with bytes past those that were there before: these and, with
  -- SACK, the held bytes that follow on them without a gap are appended to the buffer, in this
  -- order and as many as it has room for, and nothing else is; `rcv_nxt` moves by exactly as many,
  -- and the buffer stays within its capacity.
  pub take_data_in_order :
      (t : Tcb C) (seg_seq : SeqNumber) (body : List ℕ) (ce : Bool) (now : Instant)
      → IsValid t.rx
      → (left_trim t.rcv_nxt seg_seq body).0 == t.rcv_nxt ≡ true
      → length (left_trim t.rcv_nxt seg_seq body).1 == 0 ≡ false
      → let fresh : List ℕ = (left_trim t.rcv_nxt seg_seq body).1 in
        Grown t (fitting t (fresh ++ following t (length fresh))) (take_data t seg_seq body ce now)
  take_data_in_order t seg_seq body ce now v at some_bytes =
      let fresh : SeqNumber × List ℕ = left_trim t.rcv_nxt seg_seq body in
      let same = bytes-take_data t seg_seq body ce now some_bytes in
      let e : take_bytes t fresh.0 fresh.1 ≡ take_in_order t fresh.1 =
        take_bytes-in_order t fresh.0 fresh.1 at some_bytes in
      same_end t (take_in_order t fresh.1) (take_data t seg_seq body ce now)
        (fitting t (fresh.1 ++ following t (length fresh.1))) (same.0 ∙ ap (λ x. x.rx) e)
        (same.1 ∙ ap (λ x. x.rcv_nxt) e) (Grown-take_in_order t fresh.1 v)

  -- The bytes of a segment that starts above `rcv_nxt`
  abbrev held_back : Tcb C → SeqNumber → List ℕ → Tcb C
  held_back t seg_seq body =
      if t.sack_enabled
      then record t { reasm = insert t.reasm t.rcv_nxt (reasm_right_edge t) seg_seq body }
      else t

  take_bytes-ahead :
      (t : Tcb C) (seg_seq : SeqNumber) (body : List ℕ)
      → (left_trim t.rcv_nxt seg_seq body).0 == t.rcv_nxt ≡ false
      → length (left_trim t.rcv_nxt seg_seq body).1 == 0 ≡ false
      → take_bytes t (left_trim t.rcv_nxt seg_seq body).0 (left_trim t.rcv_nxt seg_seq body).1
        ≡ held_back t seg_seq body
  unfolding take_bytes
  take_bytes-ahead t seg_seq body h k = rw (k, h, left_trim-ahead t.rcv_nxt seg_seq body h) refl

  -- A segment that starts above `rcv_nxt` delivers nothing: with SACK its bytes are held up to the
  -- right edge, without it they are dropped.
  pub take_data_ahead :
      (t : Tcb C) (seg_seq : SeqNumber) (body : List ℕ) (ce : Bool) (now : Instant)
      → (left_trim t.rcv_nxt seg_seq body).0 == t.rcv_nxt ≡ false
      → length (left_trim t.rcv_nxt seg_seq body).1 == 0 ≡ false
      → ((take_data t seg_seq body ce now).rx ≡ t.rx)
        × ((take_data t seg_seq body ce now).rcv_nxt ≡ t.rcv_nxt)
        × ((take_data t seg_seq body ce now).reasm ≡ (
            if t.sack_enabled
            then insert t.reasm t.rcv_nxt (reasm_right_edge t) seg_seq body
            else t.reasm))
  take_data_ahead t seg_seq body ce now at some_bytes =
      let same = bytes-take_data t seg_seq body ce now some_bytes in
      let e = take_bytes-ahead t seg_seq body at some_bytes in
      (
        same.0
            ∙ ap (λ x. x.rx) e
            ∙ if_both (λ (x : Tcb C). x.rx ≡ t.rx) t.sack_enabled _ _ refl refl,
        same.1
            ∙ ap (λ x. x.rcv_nxt) e
            ∙ if_both (λ (x : Tcb C). x.rcv_nxt ≡ t.rcv_nxt) t.sack_enabled _ _ refl refl,
        same.2 ∙ ap (λ x. x.reasm) e ∙ if-reasm t.sack_enabled _ _,
      )

-- More rounds than there are runs are enough for the drain to end: any number above finds the same
-- state, since each round but the last takes a run away.
pub drain_runs_ends :
    {C : Type 0}
    → (f g : ℕ) (t : Tcb C) → length t.reasm.runs < f
    → length t.reasm.runs < g
    → drain_runs f t ≡ drain_runs g t
unfolding drain_runs
drain_runs_ends zero g t h k = absurd (omega arith)
drain_runs_ends (suc f) zero t h k = absurd (omega arith)
drain_runs_ends (suc f) (suc g) t h k =
    let kept : Reasm = (pop_contiguous t.reasm t.rcv_nxt).1 in
    let bytes : List ℕ = (pop_contiguous t.reasm t.rcv_nxt).0 in
    let moved : Tcb _ = record (written_to t bytes) { reasm = kept } in
    elim (Bool-cases (length bytes == 0)) [
      | inl e ↦ rw e refl
      | inr e ↦
          let less = runs-pop t.reasm t.rcv_nxt e in
          let after : Tcb _ → Tcb _ = λ u.
            if ltb (write t.rx bytes).0 (length bytes)
            then record moved {
              reasm = reinsert_front kept moved.rcv_nxt (drop (write t.rx bytes).0 bytes);
            }
            else u in
          rw e
            (ap after (drain_runs_ends f g moved (omega (arith, less, h)) (omega (arith, less, k))))
    ]
