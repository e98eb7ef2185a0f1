-- ===== src/Congestion/Fixed.antt =====
-- Numbers with a million steps to the unit, none of them negative: operations that keep to the laws
-- that the theorems rely on, and on which the controllers can be run.
use ferrumnet.Prelude.{
  ℕ, ◌+◌, ◌-◌, ◌*◌, ◌/◌, ◌^◌, ◌≤◌, ◌<◌, ◌≡◌, arith, refl, false, min, u32_max, u64_max, ltb, leb,
  ◌==◌,
}
use native.Mathlib.Nat.{
  le_of_mul-le-mul_right, mul-le-mul_right, mul-le-mul_left, le-div_iff_mul-le, div-mul-le_self,
  one-le-pow, div-le_of_le-mul,
}
use ferrumnet.Congestion.Float.{Float, Lawful}

abbrev pub unit : ℕ
unit = 1_000_000

instance abbrev pub fixed : Float ℕ
fixed = record {
  decimal = λ m k. m * unit / 10 ^ k;
  of_nat = λ n. n * unit;
  neg = λ x. 0;
  plus = λ x y. x + y;
  minus = λ x y. x - y;
  times = λ x y. x * y / unit;
  over = λ x y. x * unit / y;
  less = ltb;
  at_most = leb;
  equal = λ x y. x == y;
  is_nan = λ x. false;
  to_u32 = λ x. min (x / unit) u32_max;
  to_u64 = λ x. min (x / unit) u64_max;
}

not-ltb : (a b : ℕ) → b ≤ a → ltb a b ≡ false
not-ltb a b h = ground arith

ltb-not : (a b : ℕ) → ltb a b ≡ false → b ≤ a
ltb-not a b h = ground arith

pow-pos : (k : ℕ) → 0 < 10 ^ k
pow-pos k = one-le-pow k 10 (omega arith)

cross_le : (m n a b q u : ℕ) → q * a ≤ m * u → m * b ≤ n * a → 0 < a → q * b ≤ n * u
cross_le m n a b q u h k p =
    le_of_mul-le-mul_right (omega (arith, mul-le-mul_right b h, mul-le-mul_left u k)) p

pub fixed-Lawful : Lawful fixed
fixed-Lawful = record {
  to_u32_le = λ x. omega arith;
  scale_le = λ n x h k.
      let small : n * unit * x ≤ n * unit * unit = mul-le-mul_left (n * unit) (ltb-not unit x k) in
      omega (arith, small);
  to_u32_ge = λ n x h k l. omega (arith, ltb-not x (n * unit) l);
  minus_le = λ x h. not-ltb unit (unit - x) (omega arith);
  minus_nonneg = λ x h. not-ltb _ 0 (omega arith);
  over_le = λ m n h.
      not-ltb unit _ (div-le_of_le-mul (n * unit / 1) (mul-le-mul_right unit (omega (arith, h))));
  less_self = λ x. not-ltb x x (omega arith);
  decimal_mono = λ m k n l h. not-ltb _ _ (
      (le-div_iff_mul-le (pow-pos l)).1 (
        cross_le m n (10 ^ k) (10 ^ l) (m * unit / 10 ^ k) unit
          (div-mul-le_self (m * unit) (10 ^ k)) h (pow-pos k)));
  plus_nonneg = λ x y h k. not-ltb _ 0 (omega arith);
  times_nonneg = λ x y h k. not-ltb _ 0 (omega arith);
  over_nonneg = λ x y h k. not-ltb _ 0 (omega arith);
  of_nat_nonneg = λ n. not-ltb _ 0 (omega arith);
  across = λ x y m k h l.
      not-ltb y x (omega (arith, ltb-not (m * unit / 10 ^ k) x h, ltb-not y (m * unit / 10 ^ k) l));
  decimal_nan = λ m k. refl;
  neg_nan = λ m k. refl;
  scale_nan = λ n x h k. refl;
  scaled_nan = λ x n h k. refl;
  plus_nan = λ n x h. refl;
  minus_nan = λ m k x h. refl;
}
