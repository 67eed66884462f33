-- ===== src/Pinger/Echo.antt =====
-- A request that the peer echoes is recognised, and nothing else about the reply's header matters.
use plasma_network_health.Prelude.{
  ℕ, ◌*◌, ◌%◌, ◌≤◌, ◌<◌, ◌≡◌, refl, ap, ◌&&◌, [], ◌∷◌, ◌++◌, none, some, arith, Bytes, ◌==◌,
  if◌then◌else◌, length, length-append, drop, u32_mod, u64_mod,
}
use plasma_network_health.Pinger.Endpoint.{af_inet, af_inet6}
use plasma_network_health.Pinger.Packet.{header_bytes, payload_bytes, le_bytes, from_le_bytes}
use plasma_network_health.Pinger.Socket.{
  IcmpSocket, Datagram, byte_at, build_packet, strip_ip_header, read_reply, accept, icmp_echoreply,
  icmp6_echo_reply,
}

-- The ICMP message that a peer sends back: a reply header, with the checksum, identifier and
-- sequence that it likes, and what followed the request's header.
pub echo_of : IcmpSocket → ℕ → ℕ → ℕ → Bytes → Bytes
echo_of socket checksum id sequence request =
    header_bytes (record {
      type = if socket.family == af_inet6 then icmp6_echo_reply else icmp_echoreply;
      code = 0;
      checksum = checksum;
      id = id;
      sequence = sequence;
    })
    ++ drop 8 request

from_le_bytes-le_bytes : (x : ℕ) → x < u32_mod → from_le_bytes (le_bytes 4 x) ≡ x
from_le_bytes-le_bytes x h = omega arith

from_le_bytes-le_bytes64 : (x : ℕ) → x < u64_mod → from_le_bytes (le_bytes 8 x) ≡ x
from_le_bytes-le_bytes64 x h = omega arith

drop-build_packet :
    (socket : IcmpSocket) (uid seq sent_us cookie : ℕ)
    → drop 8 (build_packet socket uid seq sent_us cookie)
      ≡ payload_bytes
          (record { magic = 0x504E4831; cookie = cookie; uid = uid; seq = seq; sent_us = sent_us })
unfolding build_packet header_bytes
drop-build_packet socket uid seq sent_us cookie = ground arith

-- The fields of a payload in memory, behind an 8-byte header.
abbrev ReadsEcho : IcmpSocket → ℕ → ℕ → ℕ → ℕ → Datagram → ℕ → Bytes → Type 0
ReadsEcho socket uid seq sent_us cookie d mine bytes = read_reply socket mine d bytes ≡ (
    if cookie == mine
    then some
        (record { uid = uid; seq = seq; sent_us = sent_us; from = d.from; from_len = d.from_len })
    else none)

module _ (socket : IcmpSocket) (uid seq sent_us cookie mine : ℕ) (d : Datagram) where
  read_reply-echo :
      (checksum id sequence : ℕ)
      → uid < u32_mod
      → seq < u32_mod
      → sent_us < u64_mod
      → cookie < u32_mod
      → ReadsEcho socket uid seq sent_us cookie d mine
          (echo_of socket checksum id sequence (build_packet socket uid seq sent_us cookie))
  unfolding echo_of read_reply header_bytes payload_bytes
  read_reply-echo checksum id sequence h k l m =
      rw
        (
          drop-build_packet socket uid seq sent_us cookie,
          from_le_bytes-le_bytes uid h,
          from_le_bytes-le_bytes seq k,
          from_le_bytes-le_bytes64 sent_us l,
          from_le_bytes-le_bytes cookie m,
        )
        (ground arith)

drop-append : (ip msg : Bytes) → drop (length ip) (ip ++ msg) ≡ msg
drop-append [] msg = refl
drop-append (b ∷ ip) msg = drop-append ip msg

-- What a socket hands over for an ICMP message: a raw IPv4 socket puts the IP header in front.
pub framed : IcmpSocket → Bytes → Bytes → Bytes
framed socket ip msg = if socket.is_raw && socket.family == af_inet then ip ++ msg else msg

strip_ip_header-framed :
    (socket : IcmpSocket) (ip msg : Bytes)
    → 20 ≤ length ip
    → byte_at ip 0 % 16 * 4 ≡ length ip
    → strip_ip_header socket (framed socket ip msg) ≡ some msg
unfolding strip_ip_header framed
strip_ip_header-framed socket [] msg h e = absurd (omega arith)
strip_ip_header-framed socket (b ∷ ip) msg h e =
    ground
      (arith, e, ap (λ n. drop n (b ∷ ip ++ msg)) e, drop-append (b ∷ ip) msg, length-append ip msg)

-- A peer's echo of a request is accepted exactly when the request carried this daemon's cookie, on
-- every kind of socket, with an IP header of whatever length in front on a raw IPv4 one; the reply
-- carries the request's identity and send time whatever the header's checksum, identifier and
-- sequence are.
pub accept-echo :
    (socket : IcmpSocket) (uid seq sent_us cookie mine checksum id sequence : ℕ) (ip : Bytes)
    (d : Datagram)
    → uid < u32_mod
    → seq < u32_mod
    → sent_us < u64_mod
    → cookie < u32_mod
    → 20 ≤ length ip
    → byte_at ip 0 % 16 * 4 ≡ length ip
    → d.bytes
      ≡ framed socket ip
          (echo_of socket checksum id sequence (build_packet socket uid seq sent_us cookie))
    → accept socket mine d ≡ (
        if cookie == mine
        then some (record {
          uid = uid;
          seq = seq;
          sent_us = sent_us;
          from = d.from;
          from_len = d.from_len;
        })
        else none)
unfolding accept
accept-echo socket uid seq sent_us cookie mine checksum id sequence ip d h k l m n e f =
    rw (f, strip_ip_header-framed socket ip _ n e)
      (read_reply-echo socket uid seq sent_us cookie mine d checksum id sequence h k l m)
