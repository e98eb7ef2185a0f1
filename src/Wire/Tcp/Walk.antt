-- ===== src/Wire/Tcp/Walk.antt =====
-- The option walker of tcp-core/src/wire/tcp.rs: its rounds, and what it hands over.
use ferrumnet.Prelude.{
  ℕ, zero, suc, ◌+◌, ◌-◌, ◌≤◌, ◌≡◌, refl, ◌∙◌, arith, List, [], ◌∷◌, ◌++◌, length, take, drop,
  length-drop, length-take, length-append, take-append, drop-append, ◌≢◌, ◌<◌, Bool-cases, inl, inr,
  true, ltb, ◌==◌, ◌||◌, if_case, sym, subst, take-append-drop,
}
use ferrumnet.Wire.Tcp.{Tlv, TcpPacket, options, walk, option_list}

-- The bytes that the options take with their headers.
pub size : List Tlv → ℕ
size [] = 0
size ((kind, v) ∷ os) = 2 + length v + size os

walk_fuel :
    (f g : ℕ) (opts : List ℕ) → length opts ≤ f → length opts ≤ g → walk f opts ≡ walk g opts
unfolding walk
walk_fuel zero zero opts h k = refl
walk_fuel zero (suc g) [] h k = refl
walk_fuel (suc f) zero [] h k = refl
walk_fuel zero (suc g) (x ∷ opts) h k = absurd (omega arith)
walk_fuel (suc f) zero (x ∷ opts) h k = absurd (omega arith)
walk_fuel (suc f) (suc g) [] h k = refl
walk_fuel (suc f) (suc g) (kind ∷ []) h k = rw (walk_fuel f g [] (omega arith) (omega arith))
walk_fuel (suc f) (suc g) (kind ∷ (len ∷ more)) h k = rw (
  walk_fuel f g (len ∷ more) (omega arith) (omega arith),
  walk_fuel f g (drop (len - 2) more) (omega (arith, length-drop (len - 2) more))
      (omega (arith, length-drop (len - 2) more)),
)

size-walk : (f : ℕ) (opts : List ℕ) → size (walk f opts) ≤ length opts
unfolding walk size
size-walk zero opts = omega arith
size-walk (suc f) [] = omega arith
size-walk (suc f) (kind ∷ []) = ground (arith, size-walk f [])
size-walk (suc f) (kind ∷ (len ∷ more)) = ground (
  arith,
  size-walk f (len ∷ more),
  size-walk f (drop (len - 2) more),
  length-drop (len - 2) more,
  length-take (len - 2) more,
)

-- What is left of an option that is neither an end nor a padding when its length is refused: it
-- has none, it is below two, or it is more than there is.
pub data Refused : List ℕ → Type 0 where
  lone : (kind : ℕ) → Refused (kind ∷ [])
  short : (kind len : ℕ) (more : List ℕ) → len < 2 → Refused (kind ∷ (len ∷ more))
  long : (kind len : ℕ) (more : List ℕ) → length more + 2 < len → Refused (kind ∷ (len ∷ more))

-- The options that bytes hold, in order: all up to the end of the bytes, to an end of options, or
-- to a length that is refused; a padding is passed over.
pub data Holds : List ℕ → List Tlv → Type 0 where
  nothing : Holds [] []
  end_of_options : (rest : List ℕ) → Holds (0 ∷ rest) []
  padding : (rest : List ℕ) (os : List Tlv) → Holds rest os → Holds (1 ∷ rest) os
  refused :
      (kind : ℕ) (more : List ℕ)
      → kind ≢ 0
      → kind ≢ 1
      → Refused (kind ∷ more)
      → Holds (kind ∷ more) []
  an_option :
      (kind len : ℕ) (v rest : List ℕ) (os : List Tlv)
      → kind ≢ 0
      → kind ≢ 1
      → len ≡ length v + 2
      → Holds rest os
      → Holds (kind ∷ (len ∷ (v ++ rest))) ((kind, v) ∷ os)

-- An option whose bytes are all there
Holds-option :
    (kind len : ℕ) (more : List ℕ) (os : List Tlv)
    → kind ≢ 0
    → kind ≢ 1
    → 2 ≤ len
    → len ≤ length more + 2
    → Holds (drop (len - 2) more) os
    → Holds (kind ∷ (len ∷ more)) ((kind, take (len - 2) more) ∷ os)
Holds-option kind len more os z o h k rest =
    subst (λ bytes. Holds (kind ∷ (len ∷ bytes)) ((kind, take (len - 2) more) ∷ os))
      (take-append-drop (len - 2) more)
      (an_option kind len (take (len - 2) more) (drop (len - 2) more) os z o
        (omega (arith, h, k, length-take (len - 2) more)) rest)

zero_of : {kind : ℕ} → kind == 0 ≡ true → kind ≡ 0
zero_of e = ground (arith, e)

one_of : {kind : ℕ} → kind == 1 ≡ true → kind ≡ 1
one_of e = ground (arith, e)

bad_length :
    (kind len : ℕ) (more : List ℕ)
    → (ltb len 2 || ltb (length more + 2) len) ≡ true
    → Refused (kind ∷ (len ∷ more))
bad_length kind len more e = elim (Bool-cases (ltb len 2)) [
  | inl h ↦ short kind len more (ground (arith, h))
  | inr h ↦ long kind len more (ground (arith, e, h))
]

Holds-walk : (f : ℕ) (opts : List ℕ) → length opts ≤ f → Holds opts (walk f opts)
unfolding walk
Holds-walk zero [] h = nothing
Holds-walk zero (x ∷ opts) h = absurd (omega arith)
Holds-walk (suc f) [] h = nothing
Holds-walk (suc f) (kind ∷ []) h =
    let P : List Tlv → Type 0 = Holds (kind ∷ []) in
    if_case P (kind == 0) _ _
      (λ e. subst (λ k. Holds (k ∷ []) []) (sym (zero_of e)) (end_of_options []))
      λ z.
        if_case P (kind == 1) _ _
          (λ e.
            subst (λ k. Holds (k ∷ []) (walk f [])) (sym (one_of e))
              (padding [] (walk f []) (Holds-walk f [] (omega arith))))
          (λ o. refused kind [] (ground (arith, z)) (ground (arith, o)) (lone kind))
Holds-walk (suc f) (kind ∷ (len ∷ more)) h =
    let P : List Tlv → Type 0 = Holds (kind ∷ (len ∷ more)) in
    let padded = Holds-walk f (len ∷ more) (omega arith) in
    let behind = Holds-walk f (drop (len - 2) more) (omega (arith, length-drop (len - 2) more)) in
    if_case P (kind == 0) _ _
      (λ e.
        subst (λ k. Holds (k ∷ (len ∷ more)) []) (sym (zero_of e)) (end_of_options (len ∷ more)))
      λ z.
        if_case P (kind == 1) _ _
          (λ e.
            subst (λ k. Holds (k ∷ (len ∷ more)) (walk f (len ∷ more))) (sym (one_of e))
              (padding (len ∷ more) (walk f (len ∷ more)) padded))
          λ o.
            if_case P (ltb len 2 || ltb (length more + 2) len) _ _
              (λ e.
                refused kind (len ∷ more) (ground (arith, z)) (ground (arith, o))
                  (bad_length kind len more e))
              (λ e.
                Holds-option kind len more _ (ground (arith, z)) (ground (arith, o))
                  (ground (arith, e)) (ground (arith, e)) behind)

-- With as many rounds as there are bytes at least, the walk hands over exactly the options that the
-- bytes hold, whatever the bytes: it stops at an end of options and at a length that is refused. More
-- rounds find the same, and the options take no more bytes than there are.
pub walk_ends :
    (fuel : ℕ) (opts : List ℕ)
    → length opts ≤ fuel
    → Holds opts (walk fuel opts)
      × (walk fuel opts ≡ walk (length opts) opts)
      × (size (walk fuel opts) ≤ length opts)
walk_ends fuel opts h =
    (Holds-walk fuel opts h, walk_fuel fuel (length opts) opts h (omega arith), size-walk fuel opts)

-- The walk with just enough rounds.
pub walk_all : List ℕ → List Tlv
walk_all opts = walk (length opts) opts

pub option_list_lem : (p : TcpPacket) → option_list p ≡ walk_all (options p)
unfolding option_list walk_all
option_list_lem p = refl

pub walk_all_nil : walk_all [] ≡ []
unfolding walk_all walk
walk_all_nil = refl

pub walk_all-nop : (rest : List ℕ) → walk_all (1 ∷ rest) ≡ walk_all rest
unfolding walk_all walk
walk_all-nop [] = refl
walk_all-nop (x ∷ rest) = refl

walk-tlv :
    (f kind len : ℕ) (v rest : List ℕ)
    → kind ≢ 0
    → kind ≢ 1
    → len ≡ length v + 2
    → walk (suc f) (kind ∷ (len ∷ (v ++ rest)))
      ≡ (kind, take (len - 2) (v ++ rest)) ∷ walk f (drop (len - 2) (v ++ rest))
unfolding walk
walk-tlv f kind len v rest h k e = ground (arith, length-append v rest)

pub walk_all-tlv :
    (kind len : ℕ) (v rest : List ℕ)
    → kind ≢ 0
    → kind ≢ 1
    → len ≡ length v + 2
    → walk_all (kind ∷ (len ∷ (v ++ rest))) ≡ (kind, v) ∷ walk_all rest
unfolding walk_all
walk_all-tlv kind len v rest h k e =
    walk-tlv (suc (length (v ++ rest))) kind len v rest h k e
    ∙ rw (
      take-append (len - 2) v rest (omega arith),
      drop-append (len - 2) v rest (omega arith),
      walk_fuel (suc (length (v ++ rest))) (length rest) rest (omega (arith, length-append v rest))
          (omega arith),
    )
