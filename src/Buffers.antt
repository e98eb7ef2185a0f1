-- ===== src/Buffers.antt =====
-- tcp-core/src/buffers.rs: the bounded byte queue of the send and the receive side. A method that
-- takes `&mut self` or fills a slice returns the new ones beside its result.
mod Tests
pub mod Laws
use ferrumnet.Prelude.{
  ℕ, zero, suc, ◌+◌, ◌-◌, Bool, List, [], ◌∷◌, ◌++◌, Option, none, some, length, take, drop, set,
  leb, ◌==◌, min, if◌then◌else◌,
}

-- `VecDeque<u8>` is the list of its bytes, the front first.
pub record RingBuffer : Type 0 where
  pub buf : List ℕ
  pub capacity : ℕ

unfoldable pub with_capacity : ℕ → RingBuffer
with_capacity capacity = record { buf = []; capacity = capacity }

abbrev pub len : RingBuffer → ℕ
len rb = length rb.buf

abbrev pub is_empty : RingBuffer → Bool
is_empty rb = length rb.buf == 0

abbrev pub free : RingBuffer → ℕ
free rb = rb.capacity - length rb.buf

unfoldable pub write : RingBuffer → List ℕ → ℕ × RingBuffer
write rb bytes =
    let n = min (length bytes) (free rb) in (n, record rb { buf = rb.buf ++ take n bytes })

-- The loop of `peek`, at index `i` with `n` bytes copied.
unfoldable pub peek_from : List ℕ → ℕ → ℕ → List ℕ → ℕ × List ℕ
peek_from [] i n dst = (n, dst)
peek_from (byte ∷ rest) i n dst =
    let next = peek_from rest (i + 1) (n + 1) (set dst i byte) in
    if leb (length dst) i then (n, dst) else next

unfoldable pub peek : RingBuffer → ℕ → List ℕ → ℕ × List ℕ
unfolding peek_from
peek rb offset dst = peek_from (drop offset rb.buf) 0 0 dst

unfoldable pub consume : RingBuffer → ℕ → ℕ × RingBuffer
consume rb n = let m = min n (length rb.buf) in (m, record rb { buf = drop m rb.buf })

-- The loop of `read` over the first `n` slots; `none` is the panic of `unwrap` on an empty queue.
unfoldable pub read_slots : ℕ → List ℕ → List ℕ → Option (List ℕ × List ℕ)
read_slots zero dst buf = some (dst, buf)
read_slots (suc n) [] buf = some ([], buf)
read_slots (suc n) (slot ∷ dst) [] = none
read_slots (suc n) (slot ∷ dst) (byte ∷ buf) = elim (read_slots n dst buf) [
  | none ↦ none
  | some (dst', buf') ↦ some (byte ∷ dst', buf')
]

unfoldable pub read : RingBuffer → List ℕ → Option (ℕ × List ℕ × RingBuffer)
unfolding read_slots
read rb dst =
    let n = min (length dst) (length rb.buf) in
    elim (read_slots n dst rb.buf) [
      | none ↦ none
      | some (dst', buf') ↦ some (n, dst', record rb { buf = buf' })
    ]
