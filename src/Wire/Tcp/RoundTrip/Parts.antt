-- ===== src/Wire/Tcp/RoundTrip/Parts.antt =====
-- What the option walker of tcp-core/src/wire/tcp.rs finds in the options of a segment, part by part.
use ferrumnet.Prelude.{
  ℕ, ◌+◌, ◌*◌, ◌≤◌, ◌≡◌, refl, sym, ap, ◌∙◌, arith, Bool, true, false, List, [], ◌∷◌, ◌++◌,
  append-nil, length, take, length-take, Option, none, some, u8, u16_bytes, u32_bytes, ltb,
}
use ferrumnet.Seq.{SeqNumber}
use ferrumnet.Wire.Tcp.{Tlv, for_each}
use ferrumnet.Wire.Tcp.Emit.{
  TcpRepr, mss_bytes, permitted_bytes, scale_bytes, timestamp_bytes, sack_option, sack_bytes,
  block_bytes, option_bytes, sack_blocks_to_emit,
}
use ferrumnet.Wire.Tcp.Walk.{walk_all, walk_all_nil, walk_all-nop, walk_all-tlv}
use ferrumnet.Wire.Tcp.Lengths.{length-blocks}

-- The options of each part.
abbrev pub mss_tlvs : Option ℕ → List Tlv
mss_tlvs none = []
mss_tlvs (some mss) = (2, u16_bytes mss) ∷ []

abbrev pub permitted_tlvs : Bool → List Tlv
permitted_tlvs false = []
permitted_tlvs true = (4, []) ∷ []

abbrev pub scale_tlvs : Option ℕ → List Tlv
scale_tlvs none = []
scale_tlvs (some shift) = (3, shift ∷ []) ∷ []

abbrev pub timestamp_tlvs : Option (ℕ × ℕ) → List Tlv
timestamp_tlvs none = []
timestamp_tlvs (some (tsval, tsecr)) = (8, u32_bytes tsval ++ u32_bytes tsecr) ∷ []

abbrev pub sack_tlvs : Bool → ℕ → List (SeqNumber × SeqNumber) → List Tlv
sack_tlvs false n blocks = []
sack_tlvs true n blocks = (5, block_bytes (take n blocks)) ∷ []

walk-mss :
    (m : Option ℕ) (rest : List ℕ) → walk_all (mss_bytes m ++ rest) ≡ mss_tlvs m ++ walk_all rest
walk-mss none rest = refl
walk-mss (some m) rest =
    walk_all-tlv 2 4 (u16_bytes m) rest (omega arith) (omega arith) (omega arith)

walk-permitted :
    (b : Bool) (rest : List ℕ)
    → walk_all (permitted_bytes b ++ rest) ≡ permitted_tlvs b ++ walk_all rest
walk-permitted false rest = refl
walk-permitted true rest =
    walk_all-nop (1 ∷ (4 ∷ (2 ∷ rest)))
    ∙ walk_all-nop (4 ∷ (2 ∷ rest))
    ∙ walk_all-tlv 4 2 [] rest (omega arith) (omega arith) (omega arith)

walk-scale :
    (s : Option ℕ) (rest : List ℕ)
    → walk_all (scale_bytes s ++ rest) ≡ scale_tlvs s ++ walk_all rest
walk-scale none rest = refl
walk-scale (some s) rest =
    walk_all-nop (3 ∷ (3 ∷ (s ∷ rest)))
    ∙ walk_all-tlv 3 3 (s ∷ []) rest (omega arith) (omega arith) (omega arith)

walk-timestamps :
    (t : Option (ℕ × ℕ)) (rest : List ℕ)
    → walk_all (timestamp_bytes t ++ rest) ≡ timestamp_tlvs t ++ walk_all rest
walk-timestamps none rest = refl
walk-timestamps (some (a, b)) rest =
    walk_all-nop (1 ∷ (8 ∷ (10 ∷ ((u32_bytes a ++ u32_bytes b) ++ rest))))
    ∙ walk_all-nop (8 ∷ (10 ∷ ((u32_bytes a ++ u32_bytes b) ++ rest)))
    ∙ walk_all-tlv 8 10 (u32_bytes a ++ u32_bytes b) rest (omega arith) (omega arith) (omega arith)

walk-blocks :
    (n : ℕ) (bs : List (SeqNumber × SeqNumber))
    → n ≤ 4
    → n ≤ length bs
    → walk_all (1 ∷ (1 ∷ (5 ∷ (u8 (2 + 8 * n) ∷ block_bytes (take n bs)))))
      ≡ (5, block_bytes (take n bs)) ∷ []
walk-blocks n bs h k =
    let v : List ℕ = block_bytes (take n bs) in
    let len : ℕ = u8 (2 + 8 * n) in
    let e : len ≡ length v + 2 = omega (arith, length-blocks (take n bs), length-take n bs) in
    walk_all-nop (1 ∷ (5 ∷ (len ∷ v)))
    ∙ walk_all-nop (5 ∷ (len ∷ v))
    ∙ ap (λ w. walk_all (5 ∷ (len ∷ w))) (sym (append-nil v))
    ∙ walk_all-tlv 5 len v [] (omega arith) (omega arith) e
    ∙ ap (λ os. (5, v) ∷ os) walk_all_nil

walk-sack :
    (b : Bool) (n : ℕ) (bs : List (SeqNumber × SeqNumber))
    → n ≤ 4
    → n ≤ length bs
    → walk_all (sack_option b n bs) ≡ sack_tlvs b n bs
walk-sack false n bs h k = walk_all_nil
walk-sack true n bs h k = walk-blocks n bs h k

-- What the walk hands over of the options of a description.
abbrev pub tlvs : TcpRepr → List Tlv
tlvs r =
    mss_tlvs r.mss
    ++ (permitted_tlvs r.sack_permitted
        ++ (scale_tlvs r.window_scale
            ++ (timestamp_tlvs r.timestamps
                ++ sack_tlvs (ltb 0 (sack_blocks_to_emit r)) (sack_blocks_to_emit r)
                    r.sack.blocks)))

pub walk-options :
    (r : TcpRepr) → r.sack.len ≤ 4 → length r.sack.blocks ≡ 4 → walk_all (option_bytes r) ≡ tlvs r
walk-options r h k =
    let n : ℕ = sack_blocks_to_emit r in
    let e : List ℕ = sack_bytes n r.sack.blocks in
    let d : List ℕ = timestamp_bytes r.timestamps ++ e in
    let c : List ℕ = scale_bytes r.window_scale ++ d in
    walk-mss r.mss (permitted_bytes r.sack_permitted ++ c)
    ∙ ap (λ os. mss_tlvs r.mss ++ os)
        (walk-permitted r.sack_permitted c
          ∙ ap (λ os. permitted_tlvs r.sack_permitted ++ os)
              (walk-scale r.window_scale d
                ∙ ap (λ os. scale_tlvs r.window_scale ++ os)
                    (walk-timestamps r.timestamps e
                      ∙ ap (λ os. timestamp_tlvs r.timestamps ++ os)
                          (walk-sack (ltb 0 n) n r.sack.blocks (omega arith) (omega arith)))))

module _ {A : Type 0} (f : A → Tlv → A) where
  for_each-append :
      (acc : A) (xs ys : List Tlv) → for_each f acc (xs ++ ys) ≡ for_each f (for_each f acc xs) ys
  for_each-append acc [] ys = refl
  for_each-append acc (x ∷ xs) ys = for_each-append (f acc x) xs ys

-- An accessor runs through the parts one by one.
pub parts :
    {A : Type 0}
    → (f : A → Tlv → A) (acc : A) (m : Option ℕ) (p : Bool) (s : Option ℕ) (t : Option (ℕ × ℕ))
      (b : Bool) (n : ℕ) (bs : List (SeqNumber × SeqNumber))
    → for_each f acc (
        mss_tlvs m
        ++ (permitted_tlvs p ++ (scale_tlvs s ++ (timestamp_tlvs t ++ sack_tlvs b n bs))))
      ≡ for_each f
          (for_each f
            (for_each f
              (for_each f (for_each f acc (mss_tlvs m)) (permitted_tlvs p))
              (scale_tlvs s))
            (timestamp_tlvs t))
          (sack_tlvs b n bs)
parts f acc m p s t b n bs =
    for_each-append f acc (mss_tlvs m)
      (permitted_tlvs p ++ (scale_tlvs s ++ (timestamp_tlvs t ++ sack_tlvs b n bs)))
    ∙ for_each-append f _ (permitted_tlvs p)
        (scale_tlvs s ++ (timestamp_tlvs t ++ sack_tlvs b n bs))
    ∙ for_each-append f _ (scale_tlvs s) (timestamp_tlvs t ++ sack_tlvs b n bs)
    ∙ for_each-append f _ (timestamp_tlvs t) (sack_tlvs b n bs)
