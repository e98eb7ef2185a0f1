-- ===== src/Buffers/Laws.antt =====
-- What the operations of tcp-core/src/buffers.rs do to the bytes of the queue.
use ferrumnet.Prelude.{
  ℕ, zero, suc, ◌+◌, ◌-◌, ◌≤◌, ◌≡◌, refl, ap, ◌∙◌, arith, List, [], ◌∷◌, ◌++◌, some, length, take,
  drop, set, min, length-append, length-take, length-drop, append_assoc, take_all, drop-append_left,
}
use ferrumnet.Buffers.{RingBuffer, free, write, peek_from, peek, consume, read_slots, read}

-- The queue never holds more than its capacity, so `free` does not underflow.
pub record IsValid (rb : RingBuffer) : Type 0 where
  pub within : length rb.buf ≤ rb.capacity

pub write-IsValid : (rb : RingBuffer) (bytes : List ℕ) → IsValid rb → IsValid (write rb bytes).1
unfolding write
write-IsValid rb bytes v = record {
  within = omega (
    arith,
    length-append rb.buf (take (min (length bytes) (free rb)) bytes),
    length-take (min (length bytes) (free rb)) bytes,
  );
}

pub consume-IsValid : (rb : RingBuffer) (n : ℕ) → IsValid rb → IsValid (consume rb n).1
unfolding consume
consume-IsValid rb n v = record {
  within = omega (arith, length-drop (min n (length rb.buf)) rb.buf);
}

read_slots_lem :
    (n : ℕ) (dst buf : List ℕ)
    → n ≤ length buf
    → n ≤ length dst
    → read_slots n dst buf ≡ some (take n buf ++ drop n dst, drop n buf)
unfolding read_slots
read_slots_lem zero dst buf h k = refl
read_slots_lem (suc n) [] buf h k = absurd (omega arith)
read_slots_lem (suc n) (x ∷ dst) [] h k = absurd (omega arith)
read_slots_lem (suc n) (x ∷ dst) (b ∷ buf) h k =
    ground (arith, read_slots_lem n dst buf (omega arith) (omega arith))

-- `read` never panics: it moves the first `min dst.len() len` bytes of the queue, in order, over
-- the front of `dst`, leaves the rest of `dst` alone, and keeps the queue's other bytes.
pub read_lem :
    (rb : RingBuffer) (dst : List ℕ)
    → let n = min (length dst) (length rb.buf) in
      read rb dst
      ≡ some
          (n, take n rb.buf ++ drop n dst, record { buf = drop n rb.buf; capacity = rb.capacity })
unfolding read
read_lem rb dst = ground (
  arith,
  read_slots_lem (min (length dst) (length rb.buf)) dst rb.buf (omega arith) (omega arith),
)

set-append : (xs ys : List ℕ) (b y : ℕ) → set (xs ++ (y ∷ ys)) (length xs) b ≡ xs ++ (b ∷ ys)
set-append [] ys b y = refl
set-append (x ∷ xs) ys b y = ap (λ zs. x ∷ zs) (set-append xs ys b y)

-- `dst` with the bytes of the first list laid over its front.
overlay : List ℕ → List ℕ → List ℕ
overlay [] dst = dst
overlay (b ∷ rest) [] = []
overlay (b ∷ rest) (y ∷ dst) = b ∷ overlay rest dst

overlay-eq-take :
    (rest dst : List ℕ)
    → let n = min (length dst) (length rest) in overlay rest dst ≡ take n rest ++ drop n dst
unfolding overlay
overlay-eq-take [] [] = ground arith
overlay-eq-take [] (y ∷ dst) = ground arith
overlay-eq-take (b ∷ rest) [] = ground arith
overlay-eq-take (b ∷ rest) (y ∷ dst) = rw (overlay-eq-take rest dst) (rw min-suc)
  where
    min-suc : min (suc (length dst)) (suc (length rest)) ≡ suc (min (length dst) (length rest))
    min-suc = omega arith

-- The loop with the copied bytes `done` in front of the untouched slots `dst`.
peek_from_lem :
    (rest done dst : List ℕ) (i : ℕ)
    → i ≡ length done
    → peek_from rest i i (done ++ dst)
      ≡ (i + min (length dst) (length rest), done ++ overlay rest dst)
unfolding peek_from overlay
peek_from_lem [] done dst i e = ground arith
peek_from_lem (b ∷ rest) done [] i e = ground (arith, length-append done [])
peek_from_lem (b ∷ rest) done (y ∷ dst) i e = ground (
  arith,
  length-append done (y ∷ dst),
  set-append done dst b y,
  length-append done (b ∷ []),
  append_assoc done (b ∷ []) dst,
  append_assoc done (b ∷ []) (overlay rest dst),
  peek_from_lem rest (done ++ (b ∷ [])) dst (i + 1),
)

-- `peek` copies the bytes from `offset` on over the front of `dst`, as many as both hold, says how
-- many, and leaves the other slots alone.
pub peek_lem :
    (rb : RingBuffer) (offset : ℕ) (dst : List ℕ)
    → let n = min (length dst) (length rb.buf - offset) in
      peek rb offset dst ≡ (n, take n (drop offset rb.buf) ++ drop n dst)
unfolding peek
peek_lem rb offset dst =
    peek_from_lem (drop offset rb.buf) [] dst 0 refl
    ∙ ground (arith, overlay-eq-take (drop offset rb.buf) dst, length-drop offset rb.buf)

drop_past : (n : ℕ) (xs : List ℕ) → length xs ≤ n → drop n xs ≡ []
drop_past zero [] h = refl
drop_past zero (x ∷ xs) h = absurd (omega arith)
drop_past (suc n) [] h = refl
drop_past (suc n) (x ∷ xs) h = drop_past n xs (omega arith)

drop-drop : (m n : ℕ) (xs : List ℕ) → drop n (drop m xs) ≡ drop (m + n) xs
drop-drop zero n xs = ground arith
drop-drop (suc m) n [] = ground (arith, drop_past n [], drop_past (suc m + n) [])
drop-drop (suc m) n (x ∷ xs) = drop-drop m n xs ∙ ap (λ i. drop i (x ∷ xs)) regroup
  where
    regroup : suc (m + n) ≡ suc m + n
    regroup = omega arith

-- After `n` acknowledged bytes are consumed, a segment is rebuilt from the same bytes: reading at
-- `offset` gives what reading at `n + offset` gave before.
pub peek-consume :
    (rb : RingBuffer) (n offset : ℕ) (dst : List ℕ)
    → n ≤ length rb.buf
    → peek (consume rb n).1 offset dst ≡ peek rb (n + offset) dst
unfolding peek consume
peek-consume rb n offset dst h = ground (arith, drop-drop n offset rb.buf)

-- A `write` accepts as many bytes as are free, and appends exactly those in order; a `write` after
-- a `consume` of sent bytes, or before it, leaves the same queue, as long as the write fits without
-- the space that the `consume` frees.
pub write-consume :
    (rb : RingBuffer) (n : ℕ) (bytes : List ℕ)
    → IsValid rb
    → n ≤ length rb.buf
    → length bytes ≤ free rb
    → ((write rb bytes).0 ≡ length bytes)
      × ((write rb bytes).1.buf ≡ rb.buf ++ bytes)
      × ((write (consume rb n).1 bytes).1 ≡ (consume (write rb bytes).1 n).1)
unfolding write consume
write-consume rb n bytes v h k = (
  omega arith,
  rw (take_all (min (length bytes) (free rb)) bytes (omega arith)),
  ground (
    arith,
    length-append rb.buf bytes,
    length-drop n rb.buf,
    take_all (min (length bytes) (free rb)) bytes,
    take_all (min (length bytes) (rb.capacity - length (drop n rb.buf))) bytes,
    drop-append_left n rb.buf bytes,
  ),
)
