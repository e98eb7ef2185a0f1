-- ===== src/Reasm/Bytes.antt =====
-- The count of the bytes held in tcp-core/src/reasm.rs.
use ferrumnet.Prelude.{
  ℕ, zero, suc, ◌+◌, ◌-◌, ◌<◌, ◌≡◌, ◌∙◌, inl, inr, Bool-cases, ◌%◌, refl, arith, Bool, true, false,
  List, [], ◌∷◌, length, length-drop, ◌==◌, if◌then◌else◌, ap, ◌^◌,
}
use ferrumnet.Seq.{SeqNumber, lt, le, add, offset_from, distance}
use ferrumnet.Reasm.{
  Segment, Reasm, remove, remove_touched, place, add_run, merge_in, insert, pop_contiguous,
  pop_first, discard, discard_below, reinsert_front, run_end,
}

-- The sum of the lengths of the runs.
unfoldable pub total : List Segment → ℕ
total [] = 0
total (run ∷ runs) = length run.bytes + total runs

total-remove :
    (idx : ℕ) (runs : List Segment) → (remove idx runs).0 + total (remove idx runs).1 ≡ total runs
unfolding remove total
total-remove zero [] = refl
total-remove (suc idx) [] = refl
total-remove zero (run ∷ runs) = refl
total-remove (suc idx) (run ∷ runs) = omega (arith, total-remove idx runs)

abbrev pub Counted : Reasm → Type 0
Counted r = r.held ≡ total r.runs

remove_touched-Counted :
    (idx count : ℕ) (r : Reasm) → Counted r → Counted (remove_touched idx count r)
unfolding remove_touched
remove_touched-Counted idx zero r h = h
remove_touched-Counted idx (suc count) r h =
    remove_touched-Counted idx count
      (record r { runs = (remove idx r.runs).1; held = r.held - (remove idx r.runs).0 })
      (omega (arith, total-remove idx r.runs))

total-place :
    (seg : Segment) (runs : List Segment) → total (place seg runs) ≡ length seg.bytes + total runs
unfolding place total
total-place seg [] = refl
total-place seg (run ∷ runs) = ground (arith, total-place seg runs)

add_run-Counted :
    (start : SeqNumber) (bytes : List ℕ) (r : Reasm) → Counted r → Counted (add_run start bytes r)
unfolding add_run
add_run-Counted start bytes r h = omega (
  arith,
  total-place (record { start = start; bytes = bytes; stamp = (r.next_stamp + 1) % 2 ^ 64 }) r.runs,
)

if-Counted : (b : Bool) (x y : Reasm) → Counted x → Counted y → Counted (if b then x else y)
if-Counted true x y h k = h
if-Counted false x y h k = k

merge_in-Counted :
    (r : Reasm) (lo : SeqNumber) (bytes : List ℕ) → Counted r → Counted (merge_in r lo bytes)
unfolding merge_in
merge_in-Counted r lo bytes h =
    add_run-Counted _ _ (remove_touched _ _ r) (remove_touched-Counted _ _ r h)

insert-Counted :
    (r : Reasm) (rcv_nxt right_edge seg_seq : SeqNumber) (payload : List ℕ)
    → Counted r
    → Counted (insert r rcv_nxt right_edge seg_seq payload)
unfolding insert
insert-Counted r rcv_nxt right_edge seg_seq payload h =
    if-Counted _ r _ h (merge_in-Counted r _ _ h)

pop_first-Counted :
    (runs : List Segment) (r : Reasm) (rcv_nxt : SeqNumber)
    → r.runs ≡ runs
    → Counted r
    → Counted (pop_first runs r rcv_nxt).1
unfolding pop_first total
pop_first-Counted [] r rcv_nxt e h = h
pop_first-Counted (first ∷ rest) r rcv_nxt e h =
    let t : r.held ≡ length first.bytes + total rest = h ∙ ap total e in
    elim (Bool-cases (first.start == rcv_nxt)) [ inl f ↦ rw f (omega (arith, t)) | inr f ↦ rw f h ]

-- A run that straddles the number is longer than what is cut off.
cut-le :
    (rcv_nxt : SeqNumber) (run : Segment)
    → length run.bytes < 2 ^ 31
    → rcv_nxt < 2 ^ 32
    → run.start < 2 ^ 32
    → le (run_end run) rcv_nxt ≡ false
    → lt run.start rcv_nxt ≡ true
    → offset_from rcv_nxt run.start < length run.bytes
unfolding le lt add offset_from distance
cut-le rcv_nxt run a b c d e = ground arith

-- The runs are shorter than 2 ^ 31 bytes and start at 32-bit numbers.
abbrev pub Sized : List Segment → Type 0
Sized [] = Unit
Sized (run ∷ runs) = (length run.bytes < 2 ^ 31) × (run.start < 2 ^ 32) × Sized runs

discard-Counted :
    (rcv_nxt : SeqNumber) (runs : List Segment) (held : ℕ)
    → rcv_nxt < 2 ^ 32
    → Sized runs
    → held ≡ total runs
    → (discard rcv_nxt runs held).1 ≡ total (discard rcv_nxt runs held).0
unfolding discard total
discard-Counted rcv_nxt [] held b s h = h
discard-Counted rcv_nxt (run ∷ runs) held b s h = elim (Bool-cases (le (run_end run) rcv_nxt)) [
  | inl e ↦ rw e (discard-Counted rcv_nxt runs (held - length run.bytes) b s.2 (omega arith))
  | inr e ↦ elim (Bool-cases (lt run.start rcv_nxt)) [
    | inl f ↦
        rw (e, f)
          (omega (
            arith,
            length-drop (offset_from rcv_nxt run.start) run.bytes,
            cut-le rcv_nxt run s.0 b s.1 e f,
          ))
    | inr f ↦ rw (e, f) h
  ]
]

reinsert_front-Counted :
    (r : Reasm) (start : SeqNumber) (bytes : List ℕ)
    → Counted r
    → Counted (reinsert_front r start bytes)
unfolding reinsert_front total
reinsert_front-Counted r start bytes h = elim (Bool-cases (length bytes == 0)) [
  | inl e ↦ rw e h
  | inr e ↦ rw e (omega (arith, h))
]

-- If the count of the bytes held is the sum of the lengths of the runs, and the runs are shorter
-- than 2 ^ 31 bytes and start at 32-bit numbers, it stays so after each of the operations.
pub operations-Counted :
    (r : Reasm) (rcv_nxt right_edge seg_seq : SeqNumber) (payload : List ℕ)
    → Counted r
    → Sized r.runs
    → rcv_nxt < 2 ^ 32
    → Counted (insert r rcv_nxt right_edge seg_seq payload)
      × Counted (pop_contiguous r rcv_nxt).1
      × Counted (discard_below r rcv_nxt)
      × Counted (reinsert_front r seg_seq payload)
unfolding pop_contiguous discard_below
operations-Counted r rcv_nxt right_edge seg_seq payload h s b = (
  insert-Counted r rcv_nxt right_edge seg_seq payload h,
  pop_first-Counted r.runs r rcv_nxt refl h,
  discard-Counted rcv_nxt r.runs r.held b s h,
  reinsert_front-Counted r seg_seq payload h,
)

-- Bytes that are put back at the front are popped again from the number they were put at, and
-- nothing but the counter of the stamps has changed.
pub pop-reinsert :
    (r : Reasm) (start : SeqNumber) (bytes : List ℕ)
    → 0 < length bytes
    → r.next_stamp + 1 < 2 ^ 64
    → pop_contiguous (reinsert_front r start bytes) start
      ≡ (bytes, record r { next_stamp = r.next_stamp + 1 })
unfolding pop_contiguous pop_first reinsert_front
pop-reinsert r start bytes h k = ground arith
