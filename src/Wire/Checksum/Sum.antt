-- ===== src/Wire/Checksum/Sum.antt =====
-- The folded sums of tcp-core/src/wire/checksum.rs are one's-complement sums of 16-bit words.
use ferrumnet.Prelude.{
  ℕ, ◌+◌, ◌-◌, ◌*◌, ◌%◌, ◌^◌, ◌≤◌, ◌<◌, ◌≡◌, refl, sym, ◌∙◌, ap, subst, arith, List, [], ◌∷◌,
  length, be_u16, be_u32, ◌==◌, if◌then◌else◌,
}
use ferrumnet.Wire.Checksum.{
  complement, sum_pairs, sum_octets, fold_u64, accumulate, fold_u32, fold,
}

-- A list of bytes.
abbrev pub Bytes : List ℕ → Type 0
Bytes [] = Unit
Bytes (b ∷ bs) = (b < 256) × Bytes bs

-- The plain sum of the big-endian 16-bit words, a last odd byte being a high byte.
unfoldable pub words : List ℕ → ℕ
words [] = 0
words (a ∷ []) = a * 256
words (a ∷ (b ∷ rest)) = be_u16 a b + words rest

-- The number from 1 to 65535 that `n` is modulo 65535, and 0 for 0: the one's-complement sum.
unfoldable pub ones : ℕ → ℕ
ones n = if n == 0 then 0 else (n - 1) % 65_535 + 1

words-le : (bytes : List ℕ) → Bytes bytes → words bytes ≤ length bytes * 65_536
unfolding words
words-le [] v = omega arith
words-le (a ∷ []) v = omega arith
words-le (a ∷ (b ∷ rest)) v = omega (arith, words-le rest v.1.1)

-- Both numbers are the same in one's complement.
abbrev pub Same : ℕ → ℕ → Type 0
Same m n = ones m ≡ ones n

sum_pairs_next :
    (sum a b : ℕ) (rest : List ℕ)
    → sum_pairs sum (a ∷ (b ∷ rest)) ≡ sum_pairs ((sum + be_u16 a b) % 2 ^ 64) rest
unfolding sum_pairs
sum_pairs_next sum a b rest = refl

sum_pairs_lem :
    (sum : ℕ) (bytes : List ℕ)
    → Bytes bytes
    → sum + length bytes * 65_536 < 2 ^ 64
    → sum_pairs sum bytes ≡ sum + words bytes
unfolding words
sum_pairs_lem sum [] v h = unfold sum_pairs in omega arith
sum_pairs_lem sum (a ∷ []) v h = unfold sum_pairs in omega arith
sum_pairs_lem sum (a ∷ (b ∷ rest)) v h =
    let e : (sum + be_u16 a b) % 2 ^ 64 ≡ sum + be_u16 a b = omega arith in
    sum_pairs_next sum a b rest
    ∙ ap (λ n. sum_pairs n rest) e
    ∙ omega (arith, sum_pairs_lem (sum + be_u16 a b) rest v.1.1 (omega arith))

-- A fold round changes the number by a multiple of 65535.
fold_u64_lem :
    (sum : ℕ) → sum < 2 ^ 63 → (fold_u64 2 sum < 2 ^ 32) × (ones (fold_u64 2 sum) ≡ ones sum)
unfolding fold_u64 ones
fold_u64_lem sum h = ground arith

fold_lem : (acc : ℕ) → acc < 2 ^ 32 → fold acc ≡ ones acc
unfolding fold fold_u32 ones
fold_lem acc h = ground arith

ones-same : (m n k : ℕ) → m ≡ n + k * 65_535 → 0 < n → ones m ≡ ones n
unfolding ones
ones-same m n k e h = ground arith

same_sum : (m n k : ℕ) → m ≡ n + k * 65_535 → k ≤ n → ones m ≡ ones n
unfolding ones
same_sum m n k e h = ground arith

-- The 8-byte loop: what it sums differs from the sum of the 16-bit words by a multiple of 65535,
-- and is zero only if that is.
record SumOf (sum : ℕ) (bytes : List ℕ) (total : ℕ) : Type 0 where
  pub extra : ℕ
  pub eq : total ≡ sum + words bytes + extra * 65_535
  pub extra_le : extra ≤ words bytes
  pub small : total ≤ sum + length bytes * 2 ^ 32

tail_sum :
    (sum : ℕ) (bytes : List ℕ)
    → Bytes bytes
    → sum + length bytes * 2 ^ 32 < 2 ^ 64
    → SumOf sum bytes (sum_pairs sum bytes)
tail_sum sum bytes v k = record {
  extra = 0;
  eq = omega (arith, sum_pairs_lem sum bytes v (omega arith));
  extra_le = omega arith;
  small = omega (arith, words-le bytes v, sum_pairs_lem sum bytes v (omega arith));
}

sum_octets_lem :
    (sum : ℕ) (bytes : List ℕ)
    → Bytes bytes
    → sum + length bytes * 2 ^ 32 < 2 ^ 64
    → SumOf sum bytes (sum_octets sum bytes)
unfolding sum_octets words
sum_octets_lem sum (a ∷ (b ∷ (c ∷ (d ∷ (e ∷ (f ∷ (g ∷ (h ∷ rest)))))))) v k =
    let t : ℕ = sum + be_u32 a b c d + be_u32 e f g h in
    let low : be_u32 a b c d + be_u32 e f g h ≤ 2 * 2 ^ 32 = omega arith in
    let wraps : ((sum + be_u32 a b c d) % 2 ^ 64 + be_u32 e f g h) % 2 ^ 64 ≡ t = omega arith in
    let r : SumOf t rest (sum_octets t rest) =
      sum_octets_lem t rest v.1.1.1.1.1.1.1.1 (omega arith) in
    subst (SumOf sum (a ∷ (b ∷ (c ∷ (d ∷ (e ∷ (f ∷ (g ∷ (h ∷ rest)))))))))
      (ap (λ n. sum_octets n rest) (sym wraps))
      (record {
        extra = r.extra + be_u16 a b + be_u16 e f;
        eq = omega (arith, r.eq);
        extra_le = omega (arith, r.extra_le);
        small = omega (arith, r.small);
      })
sum_octets_lem sum [] v k = tail_sum sum _ v k
sum_octets_lem sum (a ∷ []) v k = tail_sum sum _ v k
sum_octets_lem sum (a ∷ (b ∷ [])) v k = tail_sum sum _ v k
sum_octets_lem sum (a ∷ (b ∷ (c ∷ []))) v k = tail_sum sum _ v k
sum_octets_lem sum (a ∷ (b ∷ (c ∷ (d ∷ [])))) v k = tail_sum sum _ v k
sum_octets_lem sum (a ∷ (b ∷ (c ∷ (d ∷ (e ∷ []))))) v k = tail_sum sum _ v k
sum_octets_lem sum (a ∷ (b ∷ (c ∷ (d ∷ (e ∷ (f ∷ [])))))) v k = tail_sum sum _ v k
sum_octets_lem sum (a ∷ (b ∷ (c ∷ (d ∷ (e ∷ (f ∷ (g ∷ []))))))) v k = tail_sum sum _ v k

-- The folded sum of a buffer of bytes, taken up from an accumulator, is the one's-complement sum
-- of the accumulator and the 16-bit words.
pub fold-accumulate :
    (acc : ℕ) (bytes : List ℕ)
    → Bytes bytes
    → acc < 2 ^ 32
    → length bytes < 2 ^ 30
    → fold (accumulate acc bytes) ≡ ones (acc + words bytes)
unfolding accumulate
fold-accumulate acc bytes v a l =
    let s : SumOf acc bytes (sum_octets acc bytes) = sum_octets_lem acc bytes v (omega arith) in
    let f : (fold_u64 2 (sum_octets acc bytes) < 2 ^ 32)
        × (ones (fold_u64 2 (sum_octets acc bytes)) ≡ ones (sum_octets acc bytes)) =
      fold_u64_lem (sum_octets acc bytes) (omega (arith, s.small)) in
    fold_lem (fold_u64 2 (sum_octets acc bytes) % 2 ^ 32) (omega arith)
    ∙ ap ones (omega (arith, f.0))
    ∙ f.1
    ∙ same_sum (sum_octets acc bytes) (acc + words bytes) s.extra s.eq (omega (arith, s.extra_le))

pub fold-accumulate_zero :
    (bytes : List ℕ)
    → Bytes bytes
    → length bytes < 2 ^ 30
    → fold (accumulate 0 bytes) ≡ ones (words bytes)
fold-accumulate_zero bytes v l = fold-accumulate 0 bytes v (omega arith) l ∙ ap ones (omega arith)

-- Adding the complement of the sum makes it all ones.
pub ones-complement : (n : ℕ) → 0 < n → ones (n + complement (ones n)) ≡ 65_535
unfolding ones
ones-complement n h = ground arith

pub ones-lt : (n : ℕ) → ones n < 65_536
unfolding ones
ones-lt n = ground arith

pub accumulate-lt : (acc : ℕ) (bytes : List ℕ) → accumulate acc bytes < 2 ^ 32
unfolding accumulate
accumulate-lt acc bytes = omega arith
