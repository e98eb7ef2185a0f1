-- ===== src/Isn/Tests.antt =====
-- SipHash of tcp-core/src/isn.rs on the reference vector.
use ferrumnet.Prelude.{ℕ, ◌≡◌, refl, List, [], ◌∷◌}
use ferrumnet.Isn.{siphash24, absorb_all, absorb, sip_round}

abbrev reference_input : List ℕ
reference_input =
    0 ∷ (1 ∷ (2 ∷ (3 ∷ (4 ∷ (5 ∷ (6 ∷ (7 ∷ (8 ∷ (9 ∷ (10 ∷ (11 ∷ (12 ∷ (13 ∷ (14 ∷ []))))))))))))))

reference_vector :
    siphash24 0x0706050403020100 0x0f0e0d0c0b0a0908 reference_input ≡ 0xa129ca6149be45e5
unfolding siphash24 absorb_all absorb sip_round
reference_vector = refl
