-- ===== src/Tests/Network.antt =====
-- Tests of the wire format, of lookups and of base64.
use plasma_network_health.Prelude.{
  ℕ, codes, ◌<◌, ◌≡◌, refl, List, [], ◌∷◌, ◌++◌, arith, some, u16_mod, replicate,
}
use plasma_network_health.Pinger.Endpoint.{af_inet, af_inet6}
use plasma_network_health.Pinger.Packet.{internet_checksum, le_bytes}
use plasma_network_health.Pinger.Socket.{Datagram, accept, build_packet}
use plasma_network_health.Pinger.Checksum.{internet_checksum_verifies}
use plasma_network_health.Pinger.Echo.{echo_of, framed, accept-echo}
use plasma_network_health.Pinger.Lookup.{AddrInfo}
use plasma_network_health.Util.Base64.{
  base64_encode, base64_decode, base64_decode-base64_encode, sextet, alphabet_at,
}
use plasma_network_health.Tests.Data.{gateway_addr, raw_socket}

-- The example of RFC 1071, with the words in the other byte order.
checksum_of_words :
    internet_checksum (0x00 ∷ 0x01 ∷ 0xf2 ∷ 0x03 ∷ 0xf4 ∷ 0xf5 ∷ 0xf6 ∷ 0xf7 ∷ []) ≡ 0x0d22
unfolding internet_checksum
checksum_of_words = refl

abbrev ip_header : List ℕ
ip_header = 0x45 ∷ replicate 19 0

abbrev echoed : Datagram
echoed = record {
  bytes =
      framed raw_socket ip_header
        (echo_of raw_socket 1 2 3 (build_packet raw_socket 5 9 1000000 77));
  from = gateway_addr;
  from_len = 16;
}

internet_checksum_verifies_example :
    let sum = internet_checksum (8 ∷ 0 ∷ le_bytes 2 0 ++ (1 ∷ 2 ∷ 255 ∷ [])) in
    (sum < u16_mod) × (internet_checksum (8 ∷ 0 ∷ le_bytes 2 sum ++ (1 ∷ 2 ∷ 255 ∷ [])) ≡ 0)
internet_checksum_verifies_example =
    internet_checksum_verifies (8 ∷ 0 ∷ []) (1 ∷ 2 ∷ 255 ∷ []) (omega arith) (omega arith) refl
      (omega arith)

accept-echo_example :
    accept raw_socket 77 echoed
    ≡ some (record { uid = 5; seq = 9; sent_us = 1000000; from = gateway_addr; from_len = 16 })
accept-echo_example =
    accept-echo raw_socket 5 9 1000000 77 77 1 2 3 ip_header echoed (omega arith) (omega arith)
      (omega arith) (omega arith) (omega arith) refl refl

abbrev both_families : List AddrInfo
both_families =
    record {
      ai_family = af_inet6;
      ai_addr = record { ss_family = af_inet6; address = [] };
      ai_addrlen = 28;
    }
    ∷ record { ai_family = af_inet; ai_addr = gateway_addr; ai_addrlen = 16 }
    ∷ []

base64_of_man : base64_encode (codes "Man M") ≡ codes "TWFuIE0="
unfolding base64_encode sextet alphabet_at
base64_of_man = refl

base64_decode-base64_encode_example : base64_decode (base64_encode (codes "Man M")) ≡ codes "Man M"
base64_decode-base64_encode_example = base64_decode-base64_encode (codes "Man M") (omega arith)
