-- ===== src/Wire/Icmp.antt =====
-- tcp-core/src/wire/icmp.rs: the echo reply.
use ferrumnet.Prelude.{
  ℕ, ◌+◌, not, ◌||◌, List, ◌∷◌, ◌++◌, length, get_or, take, drop, Option, some, none, u16_bytes,
  u16, ltb, ◌==◌, if◌then◌else◌,
}
use ferrumnet.Wire.Checksum.{ipproto_icmp, checksum}
use ferrumnet.Wire.Ipv4.{
  Ipv4Packet, Ipv4Repr, ipv4_min_header_len, protocol, payload, src, dst, emit,
}

abbrev pub icmp_echo_reply : ℕ
icmp_echo_reply = 0

abbrev pub icmp_echo_request : ℕ
icmp_echo_request = 8

abbrev pub icmp_echo_min_len : ℕ
icmp_echo_min_len = 8

-- The reply to a request, with the given checksum: identifier, sequence and data verbatim.
abbrev pub reply_body : List ℕ → ℕ → List ℕ
reply_body request csum = icmp_echo_reply ∷ (0 ∷ (u16_bytes csum ++ drop 4 request))

abbrev pub reply_repr : Ipv4Packet → ℕ → Ipv4Repr
reply_repr ip icmp_len = record {
  src = dst ip;
  dst = src ip;
  protocol = ipproto_icmp;
  payload_len = u16 icmp_len;
  ttl = 64;
  ecn = 0;
}

-- The bytes of `out` behind the IPv4 header: the reply, then what was there.
abbrev pub place : Option (ℕ × List ℕ) → List ℕ → ℕ → List ℕ → Option (ℕ × List ℕ)
place none body total out = none
place (some (hlen, written)) body total out =
    some (total, take hlen written ++ (body ++ drop total out))

unfoldable pub echo_reply : Ipv4Packet → List ℕ → Option (ℕ × List ℕ)
echo_reply ip out =
    let request = payload ip in
    let total = ipv4_min_header_len + length request in
    if not (protocol ip == ipproto_icmp)
    then none
    else if ltb (length request) icmp_echo_min_len || not (get_or request 0 0 == icmp_echo_request)
    then none
    else if ltb (length out) total
    then none
    else place (emit (reply_repr ip (length request)) out)
        (reply_body request (checksum (reply_body request 0))) total out
