-- ===== src/Sack/Count.antt =====
-- Counting single bytes, and the spans that the walks of tcp-core/src/sack.rs take at once.
use native.Mathlib.Nat.{add-zero}
use ferrumnet.Prelude.{
  ℕ, zero, suc, ◌+◌, ◌-◌, ◌≤◌, ◌<◌, ◌≡◌, ◌^◌, ap, ap₂, ◌∙◌, arith, Bool, if◌then◌else◌,
}
use ferrumnet.Seq.{SeqNumber, offset_from, add}
use ferrumnet.Seq.Order.{Near, add-lt, offset_from-add, offset_from-sub}
use ferrumnet.Sack.{Scoreboard, next_boundary}
use ferrumnet.Sack.Valid.{IsValid}
use ferrumnet.Sack.Spans.{next_boundary_lem}

-- How many of the `n` numbers from `s` on pass the test.
unfoldable pub count : (SeqNumber → Bool) → SeqNumber → ℕ → ℕ
count p s zero = 0
count p s (suc n) = count p s n + (if p (add s n) then 1 else 0)

pub add-offset_from : (s e : SeqNumber) → s < 2 ^ 32 → e < 2 ^ 32 → add s (offset_from e s) ≡ e
unfolding add offset_from
add-offset_from s e hs he = omega arith

add-add : (s m n : ℕ) → add (add s m) n ≡ add s (m + n)
unfolding add
add-add s m n = omega arith

pub count-add :
    (p : SeqNumber → Bool) (s : SeqNumber) (m n : ℕ)
    → count p s (m + n) ≡ count p s m + count p (add s m) n
unfolding count
count-add p s m zero = rw add-zero (omega arith)
count-add p s m (suc n) =
    ap (count p s) (let e : m + suc n ≡ suc (m + n) = omega arith in e)
    ∙ rw (add-add s m n) (omega (arith, count-add p s m n))

pub count-le : (p : SeqNumber → Bool) (s : SeqNumber) (n : ℕ) → count p s n ≤ n
unfolding count
count-le p s zero = omega arith
count-le p s (suc n) = ground (arith, count-le p s n)

-- A span whose numbers all have the status of its start counts whole or not at all.
pub count-uniform :
    (p : SeqNumber → Bool) (s : SeqNumber) (n : ℕ)
    → ((j : ℕ) → j < n → p (add s j) ≡ p s)
    → count p s n ≡ (if p s then n else 0)
unfolding count
count-uniform p s zero h = ground arith
count-uniform p s (suc n) h =
    ground (arith, count-uniform p s n (λ j k. h j (omega arith)), h n (omega arith))

module _ (una nxt s : SeqNumber) (sb : Scoreboard) (v : IsValid una nxt sb) (ns : Near una s)
    (below : offset_from s una < offset_from nxt una) where
  -- The span from `s` to the next boundary, and what is left of the window after it.
  abbrev pub span : ℕ
  span = offset_from (next_boundary sb s nxt) s

  pub span_lem :
      (span ≡ offset_from (next_boundary sb s nxt) una - offset_from s una)
      × (add s span ≡ next_boundary sb s nxt)
  span_lem =
      let b = next_boundary_lem una nxt s sb v ns below in
      (
        offset_from-sub una (next_boundary sb s nxt) s b.0.fits ns.fits ns.base_fits
            (omega (arith, b.1)),
        add-offset_from s (next_boundary sb s nxt) ns.fits b.0.fits,
      )

  pub inside :
      (j : ℕ)
      → j < span
      → Near una (add s j)
        × (offset_from s una ≤ offset_from (add s j) una)
        × (offset_from (add s j) una < offset_from (next_boundary sb s nxt) una)
  inside j h =
      let b = next_boundary_lem una nxt s sb v ns below in
      let moved = offset_from-add una s j ns.fits ns.base_fits (omega (arith, span_lem.0, b)) in
      (
        record {
          fits = add-lt s j;
          base_fits = ns.base_fits;
          close = omega (arith, span_lem.0, b, moved.0);
        },
        omega (arith, moved.0),
        omega (arith, span_lem.0, b, moved.0),
      )

  -- Up to an offset `t` past the span, a walk in spans counts as a walk in bytes does, for a test
  -- that is uniform on them.
  pub count_span :
      (p : SeqNumber → Bool) (t : ℕ)
      → offset_from (next_boundary sb s nxt) una ≤ t
      → ((j : ℕ) → j < span → p (add s j) ≡ p s)
      → count p s (t - offset_from s una)
        ≡ (if p s then span else 0)
          + count p (next_boundary sb s nxt) (t - offset_from (next_boundary sb s nxt) una)
  count_span p t past same =
      let b = next_boundary_lem una nxt s sb v ns below in
      let rest = t - offset_from (next_boundary sb s nxt) una in
      let e : t - offset_from s una ≡ span + rest = omega (arith, span_lem.0, b) in
      ap (count p s) e
      ∙ count-add p s span rest
      ∙ ap₂ ◌+◌ (count-uniform p s span same) (ap (λ a. count p a rest) span_lem.1)
