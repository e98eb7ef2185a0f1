-- ===== src/Congestion/Float.antt =====
-- `f64` as tcp-core/src uses it: a type with operations that the controllers take as a parameter,
-- and the documented behaviour of the operations that theorems may rely on.
use ferrumnet.Prelude.{ℕ, ◌*◌, ◌^◌, ◌≤◌, ◌<◌, ◌≡◌, Bool, false, u32_max, if◌then◌else◌}

-- `decimal m k` is the literal `m` with `k` digits behind its point.
pub record Float (F : Type 0) : Type 0 where
  pub decimal : ℕ → ℕ → F
  pub of_nat : ℕ → F
  pub neg : F → F
  pub plus : F → F → F
  pub minus : F → F → F
  pub times : F → F → F
  pub over : F → F → F
  -- `<`, `<=` and `==`, false of a NaN
  pub less : F → F → Bool
  pub at_most : F → F → Bool
  pub equal : F → F → Bool
  pub is_nan : F → Bool
  -- `as u32` and `as u64`, which saturate
  pub to_u32 : F → ℕ
  pub to_u64 : F → ℕ

module _ {F : Type 0} ⦃fl : Float F⦄ where
  infixl 65 ◌⊕◌ ◌⊖◌
  infixl 70 ◌⊗◌ ◌⊘◌
  infix 50 ◌≺◌
  abbrev pub ◌⊕◌ : F → F → F
  a ⊕ b = fl.plus a b

  abbrev pub ◌⊖◌ : F → F → F
  a ⊖ b = fl.minus a b

  abbrev pub ◌⊗◌ : F → F → F
  a ⊗ b = fl.times a b

  abbrev pub ◌⊘◌ : F → F → F
  a ⊘ b = fl.over a b

  abbrev pub ◌≺◌ : F → F → Bool
  a ≺ b = fl.less a b

  -- `clamp_f64`
  abbrev pub clamp : F → F → F → F
  clamp x lo hi = if x ≺ lo then lo else if hi ≺ x then hi else x

-- Rust's casts saturate and send a NaN to 0; rounding never passes an integer of 32 bits; a
-- product or a sum of finite numbers may overflow, and is no NaN. Each law holds of a NaN too.
pub record Lawful {F : Type 0} (fl : Float F) : Type 0 where
  pub to_u32_le : (x : F) → fl.to_u32 x ≤ u32_max
  -- a factor of at most 1 makes no integer larger
  pub scale_le :
      (n : ℕ) (x : F)
      → n ≤ u32_max
      → fl.less (fl.decimal 1 0) x ≡ false
      → fl.to_u32 (fl.times (fl.of_nat n) x) ≤ n
  -- what is not below an integer, and no NaN, is cast to that integer at least
  pub to_u32_ge :
      (n : ℕ) (x : F)
      → n ≤ u32_max
      → fl.is_nan x ≡ false
      → fl.less x (fl.of_nat n) ≡ false
      → n ≤ fl.to_u32 x
  -- nothing that is not negative, taken from 1, leaves more than 1
  pub minus_le :
      (x : F)
      → fl.less x (fl.decimal 0 0) ≡ false
      → fl.less (fl.decimal 1 0) (fl.minus (fl.decimal 1 0) x) ≡ false
  pub minus_nonneg :
      (x : F)
      → fl.less (fl.decimal 1 0) x ≡ false
      → fl.less (fl.minus (fl.decimal 1 0) x) (fl.decimal 0 0) ≡ false
  pub over_le :
      (m n : ℕ)
      → m ≤ n
      → fl.less (fl.decimal 1 0) (fl.over (fl.decimal m 0) (fl.decimal n 0)) ≡ false
  -- the order is irreflexive, and literals keep their order
  pub less_self : (x : F) → fl.less x x ≡ false
  pub decimal_mono :
      (m k n l : ℕ) → m * 10 ^ l ≤ n * 10 ^ k → fl.less (fl.decimal n l) (fl.decimal m k) ≡ false
  -- what is not negative stays so
  pub plus_nonneg :
      (x y : F)
      → fl.less x (fl.decimal 0 0) ≡ false
      → fl.less y (fl.decimal 0 0) ≡ false
      → fl.less (fl.plus x y) (fl.decimal 0 0) ≡ false
  pub times_nonneg :
      (x y : F)
      → fl.less x (fl.decimal 0 0) ≡ false
      → fl.less y (fl.decimal 0 0) ≡ false
      → fl.less (fl.times x y) (fl.decimal 0 0) ≡ false
  pub over_nonneg :
      (x y : F)
      → fl.less x (fl.decimal 0 0) ≡ false
      → fl.less y (fl.decimal 0 0) ≡ false
      → fl.less (fl.over x y) (fl.decimal 0 0) ≡ false
  pub of_nat_nonneg : (n : ℕ) → fl.less (fl.of_nat n) (fl.decimal 0 0) ≡ false
  -- a literal is a number, and orders what lies on its two sides
  pub across :
      (x y : F) (m k : ℕ)
      → fl.less (fl.decimal m k) x ≡ false
      → fl.less y (fl.decimal m k) ≡ false
      → fl.less y x ≡ false
  -- a literal is no NaN, and what is none stays none against a finite number
  pub decimal_nan : (m k : ℕ) → fl.is_nan (fl.decimal m k) ≡ false
  pub neg_nan : (m k : ℕ) → fl.is_nan (fl.neg (fl.decimal m k)) ≡ false
  pub scale_nan :
      (n : ℕ) (x : F) → 0 < n → fl.is_nan x ≡ false → fl.is_nan (fl.times (fl.of_nat n) x) ≡ false
  pub scaled_nan :
      (x : F) (n : ℕ) → 0 < n → fl.is_nan x ≡ false → fl.is_nan (fl.times x (fl.of_nat n)) ≡ false
  pub plus_nan : (n : ℕ) (x : F) → fl.is_nan x ≡ false → fl.is_nan (fl.plus (fl.of_nat n) x) ≡ false
  pub minus_nan :
      (m k : ℕ) (x : F) → fl.is_nan x ≡ false → fl.is_nan (fl.minus (fl.decimal m k) x) ≡ false
