-- ===== src/Wire/Tcp/RoundTrip/Options.antt =====
-- The options that tcp-core/src/wire/tcp.rs emits, read back by its accessors.
use ferrumnet.Prelude.{
  ℕ, zero, suc, ◌≤◌, ◌≡◌, refl, ap, ◌∙◌, arith, Bool, true, false, List, [], ◌∷◌, ◌++◌, length,
  take, length-take, Option, none, some, min, u16_bytes, u32_bytes, ltb,
}
use ferrumnet.Seq.{SeqNumber}
use ferrumnet.Wire.Checksum.{Ipv4Addr}
use ferrumnet.Wire.Tcp.{
  Tlv, option_list, for_each, read_mss, read_timestamps, read_scale, read_permitted, read_pairs,
  read_sack, mss_option, timestamps, window_scale, sack_permitted, sack_blocks,
}
use ferrumnet.Wire.Tcp.Emit.{TcpRepr, header_len, block_bytes, sack_blocks_to_emit}
use ferrumnet.Wire.Tcp.Walk.{option_list_lem, walk_all}
use ferrumnet.Wire.Tcp.RoundTrip.{Fits, Emitted-of, packet, options-packet}
use ferrumnet.Wire.Tcp.RoundTrip.Parts.{
  mss_tlvs, permitted_tlvs, scale_tlvs, timestamp_tlvs, sack_tlvs, tlvs, walk-options, parts,
}

-- The parts that an accessor passes by.
module _ {A : Type 0} (f : A → Tlv → A) (acc : A) where
  pass_mss :
      (m : Option ℕ)
      → ((mss : ℕ) → f acc (2, u16_bytes mss) ≡ acc)
      → for_each f acc (mss_tlvs m) ≡ acc
  pass_mss none h = refl
  pass_mss (some m) h = h m

  pass_permitted : (p : Bool) → f acc (4, []) ≡ acc → for_each f acc (permitted_tlvs p) ≡ acc
  pass_permitted false h = refl
  pass_permitted true h = h

  pass_scale :
      (s : Option ℕ)
      → ((shift : ℕ) → f acc (3, shift ∷ []) ≡ acc)
      → for_each f acc (scale_tlvs s) ≡ acc
  pass_scale none h = refl
  pass_scale (some s) h = h s

  pass_timestamps :
      (t : Option (ℕ × ℕ))
      → ((a b : ℕ) → f acc (8, u32_bytes a ++ u32_bytes b) ≡ acc)
      → for_each f acc (timestamp_tlvs t) ≡ acc
  pass_timestamps none h = refl
  pass_timestamps (some (a, b)) h = h a b

  pass_sack :
      (b : Bool) (n : ℕ) (bs : List (SeqNumber × SeqNumber))
      → ((v : List ℕ) → f acc (5, v) ≡ acc)
      → for_each f acc (sack_tlvs b n bs) ≡ acc
  pass_sack false n bs h = refl
  pass_sack true n bs h = h (block_bytes (take n bs))

read-mss : (m : Option ℕ) → for_each read_mss none (mss_tlvs m) ≡ m
read-mss none = refl
read-mss (some m) = ap some (omega arith)

read-timestamps : (t : Option (ℕ × ℕ)) → for_each read_timestamps none (timestamp_tlvs t) ≡ t
read-timestamps none = refl
read-timestamps (some (a, b)) = ground arith

-- A shift beyond 14 is read as 14.
abbrev pub clamped : Option ℕ → Option ℕ
clamped none = none
clamped (some shift) = some (min shift 14)

read-scale : (s : Option ℕ) → for_each read_scale none (scale_tlvs s) ≡ clamped s
read-scale none = refl
read-scale (some s) = refl

read-permitted : (p : Bool) → for_each read_permitted false (permitted_tlvs p) ≡ p
read-permitted false = refl
read-permitted true = refl

read-pairs :
    (room : ℕ) (bs : List (SeqNumber × SeqNumber))
    → length bs ≤ room
    → read_pairs room (block_bytes bs) ≡ bs
unfolding read_pairs
read-pairs zero [] h = refl
read-pairs zero (x ∷ bs) h = absurd (omega arith)
read-pairs (suc room) [] h = refl
read-pairs (suc room) ((l, r) ∷ bs) h = ground (arith, read-pairs room bs)

read-sack :
    (b : Bool) (n : ℕ) (bs : List (SeqNumber × SeqNumber))
    → n ≤ 4
    → b ≡ ltb 0 n
    → for_each read_sack [] (sack_tlvs b n bs) ≡ take n bs
unfolding read_sack
read-sack true n bs h e = read-pairs 4 (take n bs) (omega (arith, length-take n bs))
read-sack false zero bs h e = refl
read-sack false (suc n) bs h e = absurd (ground (arith, e))

module _ (r : TcpRepr) (src dst : Ipv4Addr) (body : List ℕ) (v : Fits r)
    (h : header_len r ≤ 60) where
  abbrev n : ℕ
  n = sack_blocks_to_emit r

  abbrev has_blocks : Bool
  has_blocks = ltb 0 n

  read_all :
      {A : Type 0}
      → (f : A → Tlv → A) (acc : A)
      → for_each f acc (option_list (packet r src dst body)) ≡ for_each f acc (tlvs r)
  read_all f acc =
      ap (λ os. for_each f acc os)
        (option_list_lem (packet r src dst body)
          ∙ ap walk_all (options-packet r src dst body (Emitted-of r v h))
          ∙ walk-options r v.len_le v.blocks_len)

  -- With fields of their widths and options of at most forty bytes, every accessor of the options
  -- reads what the description holds: the segment size, the shift
  -- of the window cut at 14, the timestamps, whether SACK is permitted, and the blocks that fit.
  pub accessors-emit :
      (mss_option (packet r src dst body) ≡ r.mss)
      × (window_scale (packet r src dst body) ≡ clamped r.window_scale)
      × (timestamps (packet r src dst body) ≡ r.timestamps)
      × (sack_permitted (packet r src dst body) ≡ r.sack_permitted)
      × (sack_blocks (packet r src dst body) ≡ take (sack_blocks_to_emit r) r.sack.blocks)
  unfolding mss_option window_scale timestamps sack_permitted sack_blocks read_sack
  accessors-emit = (
    read_all read_mss none
        ∙ parts read_mss none r.mss r.sack_permitted r.window_scale r.timestamps has_blocks n
            r.sack.blocks
        ∙ pass_sack read_mss _ has_blocks n r.sack.blocks (λ w. refl)
        ∙ pass_timestamps read_mss _ r.timestamps (λ a b. refl)
        ∙ pass_scale read_mss _ r.window_scale (λ w. refl)
        ∙ pass_permitted read_mss _ r.sack_permitted refl
        ∙ read-mss r.mss,
    read_all read_scale none
        ∙ parts read_scale none r.mss r.sack_permitted r.window_scale r.timestamps has_blocks n
            r.sack.blocks
        ∙ pass_sack read_scale _ has_blocks n r.sack.blocks (λ w. refl)
        ∙ pass_timestamps read_scale _ r.timestamps (λ a b. refl)
        ∙ ap (λ a. for_each read_scale a (scale_tlvs r.window_scale))
            (pass_permitted read_scale _ r.sack_permitted refl
              ∙ pass_mss read_scale _ r.mss (λ w. refl))
        ∙ read-scale r.window_scale,
    read_all read_timestamps none
        ∙ parts read_timestamps none r.mss r.sack_permitted r.window_scale r.timestamps has_blocks n
            r.sack.blocks
        ∙ pass_sack read_timestamps _ has_blocks n r.sack.blocks (λ w. refl)
        ∙ ap (λ a. for_each read_timestamps a (timestamp_tlvs r.timestamps))
            (pass_scale read_timestamps _ r.window_scale (λ w. refl)
              ∙ pass_permitted read_timestamps _ r.sack_permitted refl
              ∙ pass_mss read_timestamps _ r.mss (λ w. refl))
        ∙ read-timestamps r.timestamps,
    read_all read_permitted false
        ∙ parts read_permitted false r.mss r.sack_permitted r.window_scale r.timestamps has_blocks n
            r.sack.blocks
        ∙ pass_sack read_permitted _ has_blocks n r.sack.blocks (λ w. refl)
        ∙ pass_timestamps read_permitted _ r.timestamps (λ a b. refl)
        ∙ pass_scale read_permitted _ r.window_scale (λ w. refl)
        ∙ ap (λ a. for_each read_permitted a (permitted_tlvs r.sack_permitted))
            (pass_mss read_permitted _ r.mss (λ w. refl))
        ∙ read-permitted r.sack_permitted,
    read_all read_sack []
        ∙ parts read_sack [] r.mss r.sack_permitted r.window_scale r.timestamps has_blocks n
            r.sack.blocks
        ∙ ap (λ a. for_each read_sack a (sack_tlvs has_blocks n r.sack.blocks))
            (pass_timestamps read_sack _ r.timestamps (λ a b. refl)
              ∙ pass_scale read_sack _ r.window_scale (λ w. refl)
              ∙ pass_permitted read_sack _ r.sack_permitted refl
              ∙ pass_mss read_sack _ r.mss (λ w. refl))
        ∙ read-sack has_blocks n r.sack.blocks (omega arith) refl,
  )
