-- ===== src/Bmc/Options.antt =====
-- The sweep of tcp-core/src/bmc.rs over strings of TCP options. A panic of the walker, a read out of
-- range, reads 0 in the model of the parser, so what is left to violate is the number of blocks.
use ferrumnet.Prelude.{
  ℕ, zero, suc, ◌+◌, ◌-◌, ◌*◌, ◌/◌, ◌≤◌, ◌≡◌, arith, refl, List, [], ◌∷◌, ◌++◌, length,
  length-append, replicate, Option, some, none, ltb, ◌==◌, if◌then◌else◌, if_both, u8,
}
use ferrumnet.Wire.Tcp
use ferrumnet.Wire.Tcp.{
  Checked, valid, invalid, Tlv, max_sack_blocks, sack_blocks, option_list, read_sack, read_pairs,
  new_checked,
}
use ferrumnet.Bmc.{BmcReport, Violation, too_many_blocks, empty_report, for_each, check}
use ferrumnet.Bmc.Clean.{IsClean, empty_report-IsClean, check-IsClean, for_each-IsClean}

-- The least segment whose options are the bytes given
unfoldable pub option_segment : List ℕ → List ℕ
option_segment opts =
    replicate 12 0 ++ (u8 (u8 ((20 + length opts) / 4) * 16) ∷ (replicate 7 0 ++ opts))

-- What the accessors return; only the number of blocks is looked at.
unfoldable pub probe_packet : Checked → Option Violation
probe_packet (invalid why) = none
probe_packet (valid p) =
    if ltb max_sack_blocks (length (sack_blocks p)) then some too_many_blocks else none

unfoldable pub probe_options : List ℕ → Option Violation
unfolding probe_packet option_segment
probe_options opts = probe_packet (new_checked (option_segment opts))

-- With how many bytes are still to come
unfoldable pub enumerate_strings :
    (List ℕ → BmcReport → BmcReport) → List ℕ → ℕ → List ℕ → BmcReport → BmcReport
unfolding for_each
enumerate_strings f alphabet zero buf r = f buf r
enumerate_strings f alphabet (suc left) buf r =
    for_each (λ b. enumerate_strings f alphabet left (buf ++ (b ∷ []))) alphabet r

unfoldable pub check_option_strings : List ℕ → ℕ → BmcReport
unfolding enumerate_strings probe_options check
check_option_strings alphabet len_words =
    enumerate_strings (λ s r. check r (probe_options s)) alphabet (len_words * 4) [] empty_report

length-read_pairs : (room : ℕ) (v : List ℕ) → length (read_pairs room v) ≤ room
unfolding read_pairs
length-read_pairs zero v = omega arith
length-read_pairs (suc room) (a ∷ (b ∷ (c ∷ (d ∷ (e ∷ (f ∷ (g ∷ (h ∷ rest)))))))) =
    omega (arith, length-read_pairs room rest)
length-read_pairs (suc room) v = omega arith

length-read_sack :
    (out : List (ℕ × ℕ)) (o : Tlv)
    → length out ≤ max_sack_blocks
    → length (read_sack out o) ≤ max_sack_blocks
unfolding read_sack
length-read_sack out (kind, v) h =
    let added = length-read_pairs (max_sack_blocks - length out) v in
    let sum = length-append out (read_pairs (max_sack_blocks - length out) v) in
    if_both (λ x. length x ≤ max_sack_blocks) (kind == 5)
      (out ++ read_pairs (max_sack_blocks - length out) v) out (omega arith) h

length-each :
    (os : List Tlv) (out : List (ℕ × ℕ))
    → length out ≤ max_sack_blocks
    → length (Tcp.for_each read_sack out os) ≤ max_sack_blocks
length-each [] out h = h
length-each (o ∷ os) out h = length-each os (read_sack out o) (length-read_sack out o h)

probe_packet-passes : (c : Checked) → probe_packet c ≡ none
unfolding probe_packet sack_blocks
probe_packet-passes (invalid why) = refl
probe_packet-passes (valid p) =
    let few = length-each (option_list p) [] (omega arith) in ground (arith, few)

strings-IsClean :
    (alphabet : List ℕ) (left : ℕ) (buf : List ℕ) (r : BmcReport)
    → IsClean r
    → IsClean (enumerate_strings (λ s t. check t (probe_options s)) alphabet left buf r)
unfolding enumerate_strings probe_options
strings-IsClean alphabet zero buf r v = check-IsClean r (probe_packet-passes _) v
strings-IsClean alphabet (suc left) buf r v =
    for_each-IsClean _ alphabet (λ b. strings-IsClean alphabet left (buf ++ (b ∷ []))) r v

-- Over any alphabet and any number of words, the sweep finds no violation.
pub options-IsClean :
    (alphabet : List ℕ) (len_words : ℕ) → IsClean (check_option_strings alphabet len_words)
unfolding check_option_strings
options-IsClean alphabet len_words =
    strings-IsClean alphabet (len_words * 4) [] empty_report empty_report-IsClean
