-- ===== src/Seq.antt =====
-- tcp-core/src/seq.rs: 32-bit sequence numbers and their serial order.
mod Tests
pub mod Order
use ferrumnet.Prelude.{ℕ, ◌+◌, ◌-◌, ◌%◌, ◌^◌, Bool, wrapping_add, wrapping_sub, if◌then◌else◌}
use ferrumnet.Prelude.Int.{ℤ, pos, i32, ltb_ℤ, leb_ℤ}

-- `struct SeqNumber(pub u32)`. A value is below 2 ^ 32 where a theorem says so.
abbrev pub SeqNumber : Type 0
SeqNumber = ℕ

unfoldable pub distance : SeqNumber → SeqNumber → ℤ
distance a b = i32 (wrapping_sub a b)

unfoldable pub offset_from : SeqNumber → SeqNumber → ℕ
offset_from a base = wrapping_sub a base

unfoldable pub lt : SeqNumber → SeqNumber → Bool
unfolding distance
lt a b = ltb_ℤ (distance a b) (pos 0)

unfoldable pub le : SeqNumber → SeqNumber → Bool
unfolding distance
le a b = leb_ℤ (distance a b) (pos 0)

unfoldable pub gt : SeqNumber → SeqNumber → Bool
unfolding distance
gt a b = ltb_ℤ (pos 0) (distance a b)

unfoldable pub ge : SeqNumber → SeqNumber → Bool
unfolding distance
ge a b = leb_ℤ (pos 0) (distance a b)

unfoldable pub smaller : SeqNumber → SeqNumber → SeqNumber
unfolding le
smaller a b = if le a b then a else b

unfoldable pub larger : SeqNumber → SeqNumber → SeqNumber
unfolding ge
larger a b = if ge a b then a else b

-- `impl Add<u32>` and `impl AddAssign<u32>`
unfoldable pub add : SeqNumber → ℕ → SeqNumber
add a n = wrapping_add a n
