-- ===== src/Seq/Order.antt =====
-- The serial order of tcp-core/src/seq.rs, read through the offsets from a base.
use ferrumnet.Prelude.{ℕ, ◌+◌, ◌-◌, ◌^◌, ◌≤◌, ◌<◌, ◌≡◌, ◌↔◌, arith, true, false, ltb, leb, min, max}
use ferrumnet.Seq.{SeqNumber, offset_from, lt, le, gt, ge, smaller, larger, add}

-- `a` lies in the half space that starts at `base`.
pub record Near (base a : SeqNumber) : Type 0 where
  pub fits : a < 2 ^ 32
  pub base_fits : base < 2 ^ 32
  pub close : offset_from a base < 2 ^ 31

pub lt-offset :
    (base a b : SeqNumber)
    → Near base a
    → Near base b
    → lt a b ≡ ltb (offset_from a base) (offset_from b base)
unfolding lt offset_from
lt-offset base a b p q = ground arith

pub le-offset :
    (base a b : SeqNumber)
    → Near base a
    → Near base b
    → le a b ≡ leb (offset_from a base) (offset_from b base)
unfolding le offset_from
le-offset base a b p q = ground arith

pub gt-offset :
    (base a b : SeqNumber)
    → Near base a
    → Near base b
    → gt a b ≡ ltb (offset_from b base) (offset_from a base)
unfolding gt offset_from
gt-offset base a b p q = ground arith

pub ge-offset :
    (base a b : SeqNumber)
    → Near base a
    → Near base b
    → ge a b ≡ leb (offset_from b base) (offset_from a base)
unfolding ge offset_from
ge-offset base a b p q = ground arith

-- Above a common base, numbers whose offsets are below 2 ^ 31 compare exactly as their offsets,
-- by each of the four tests, and `smaller` and `larger` pick the number with the smaller and the
-- larger offset.
pub compare-offset :
    (base a b : SeqNumber)
    → Near base a
    → Near base b
    → (lt a b ≡ ltb (offset_from a base) (offset_from b base))
      × (le a b ≡ leb (offset_from a base) (offset_from b base))
      × (gt a b ≡ ltb (offset_from b base) (offset_from a base))
      × (ge a b ≡ leb (offset_from b base) (offset_from a base))
      × (offset_from (smaller a b) base ≡ min (offset_from a base) (offset_from b base))
      × (offset_from (larger a b) base ≡ max (offset_from a base) (offset_from b base))
compare-offset base a b p q = (
  lt-offset base a b p q,
  le-offset base a b p q,
  gt-offset base a b p q,
  ge-offset base a b p q,
  unfold smaller in ground (arith, le-offset base a b p q),
  unfold larger in ground (arith, ge-offset base a b p q),
)

-- The order is a strict order on all 32-bit numbers except at one distance: two of them come each
-- before the other exactly when they are 2 ^ 31 apart; at every other distance exactly one of
-- `lt a b`, `a ≡ b` and `lt b a` holds.
pub lt_both_iff :
    (a b : SeqNumber)
    → a < 2 ^ 32
    → b < 2 ^ 32
    → (((lt a b ≡ true) × (lt b a ≡ true)) ↔ (offset_from a b ≡ 2 ^ 31))
      × (((lt a b ≡ false) × (lt b a ≡ false)) ↔ (a ≡ b))
unfolding lt offset_from
lt_both_iff a b ha hb = ground arith

-- Adding a byte count to a number moves its offset from any base by that count, as long as the
-- sum of the two stays below 2 ^ 32, wherever the 32-bit numbers wrap; and the offset of the sum
-- from the number itself is the count.
pub offset_from-add :
    (base a n : ℕ)
    → a < 2 ^ 32
    → base < 2 ^ 32
    → offset_from a base + n < 2 ^ 32
    → (offset_from (add a n) base ≡ offset_from a base + n) × (offset_from (add a n) a ≡ n)
unfolding offset_from add
offset_from-add base a n ha hb h = (omega arith, omega arith)

pub offset_from-injective :
    (base a b : SeqNumber)
    → a < 2 ^ 32
    → b < 2 ^ 32
    → base < 2 ^ 32
    → offset_from a base ≡ offset_from b base
    → a ≡ b
unfolding offset_from
offset_from-injective base a b ha hb hc h = omega arith

pub offset_from-lt : (a base : SeqNumber) → offset_from a base < 2 ^ 32
unfolding offset_from
offset_from-lt a base = omega arith

pub offset_from_self : (a : SeqNumber) → offset_from a a ≡ 0
unfolding offset_from
offset_from_self a = omega arith

-- The offset between two numbers above a base is the difference of theirs.
pub offset_from-sub :
    (base a b : SeqNumber)
    → a < 2 ^ 32
    → b < 2 ^ 32
    → base < 2 ^ 32
    → offset_from b base ≤ offset_from a base
    → offset_from a b ≡ offset_from a base - offset_from b base
unfolding offset_from
offset_from-sub base a b ha hb hc h = omega arith

pub add-lt : (a n : ℕ) → add a n < 2 ^ 32
unfolding add
add-lt a n = omega arith
