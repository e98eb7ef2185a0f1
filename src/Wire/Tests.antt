-- ===== src/Wire/Tests.antt =====
-- The wire formats of tcp-core/src/wire on concrete bytes.
use ferrumnet.Prelude.{ℕ, ◌+◌, ◌≡◌, refl, arith, true, List, [], ◌∷◌, drop, some}
use ferrumnet.Wire.Checksum.{sum_pairs, sum_octets, fold_u64, fold_u32, accumulate, fold, checksum}
use ferrumnet.Wire.Checksum.Sum.{Bytes, words, ones, fold-accumulate}
use ferrumnet.Wire.Ipv4.{
  Ipv4Repr, ok, emit, new_checked, checksum_valid, payload, src, dst, protocol, ttl, ecn,
}
use ferrumnet.Wire.Ipv4.Emit.{Fits, datagram, new_checked-emit}

abbrev repr_ : Ipv4Repr
repr_ = record {
  src = record { a = 10; b = 0; c = 0; d = 1 };
  dst = record { a = 10; b = 0; c = 0; d = 2 };
  protocol = 1;
  payload_len = 9;
  ttl = 64;
  ecn = 1;
}

abbrev buffer : List ℕ
buffer =
    0
    ∷ (0
        ∷ (0
            ∷ (0
                ∷ (0
                    ∷ (0
                        ∷ (0
                            ∷ (0
                                ∷ (0
                                    ∷ (0
                                        ∷ (0
                                            ∷ (0
                                                ∷ (0
                                                    ∷ (0
                                                        ∷ (0
                                                            ∷ (0
                                                            ∷ (0
                                                            ∷ (0
                                                            ∷ (0
                                                            ∷ (0
                                                            ∷ (8
                                                            ∷ (0
                                                            ∷ (1
                                                            ∷ (2
                                                            ∷ (3
                                                            ∷ (4
                                                            ∷ (5
                                                            ∷ (6
                                                            ∷ (7 ∷ []))))))))))))))))))))))))))))

fits : Fits repr_
fits = ground arith

new_checked-emit_example :
    (emit repr_ buffer ≡ some (20, (datagram repr_ buffer).buf))
    × (new_checked (datagram repr_ buffer).buf ≡ ok (datagram repr_ buffer))
    × (checksum_valid (datagram repr_ buffer) ≡ true)
    × (payload (datagram repr_ buffer) ≡ drop 20 buffer)
    × (src (datagram repr_ buffer) ≡ repr_.src)
    × (dst (datagram repr_ buffer) ≡ repr_.dst)
    × (protocol (datagram repr_ buffer) ≡ 1)
    × (ttl (datagram repr_ buffer) ≡ 64)
    × (ecn (datagram repr_ buffer) ≡ 1)
new_checked-emit_example = new_checked-emit repr_ buffer fits (omega arith)

abbrev nine : List ℕ
nine = 255 ∷ (255 ∷ (255 ∷ (255 ∷ (1 ∷ (2 ∷ (3 ∷ (4 ∷ (5 ∷ []))))))))

nine-Bytes : Bytes nine
nine-Bytes = ground arith

fold-accumulate_example : fold (accumulate 7 nine) ≡ ones (7 + words nine)
fold-accumulate_example = fold-accumulate 7 nine nine-Bytes (omega arith) (omega arith)

checksum_test : checksum nine ≡ 63_225
unfolding checksum fold fold_u32 accumulate fold_u64 sum_octets sum_pairs
checksum_test = refl
