-- ===== src/Pinger/Socket.antt =====
-- `IcmpSocket` (daemon/src/pinger.cpp): opening, sending one echo request, and draining the replies.
-- What the kernel answers is an argument: a sequence of results that ends, since a call that is
-- interrupted is made again.
use plasma_network_health.Prelude.{
  ℕ, zero, suc, ◌*◌, ◌%◌, Bool, true, false, not, ◌&&◌, ◌||◌, List, [], ◌∷◌, ◌++◌, Option, none,
  some, Bytes, codes, ltb, ◌==◌, if◌then◌else◌, length, drop, take, u16_mod,
}
use plasma_network_health.Pinger.Endpoint.{
  af_unspec, af_inet, af_inet6, SockAddr, Endpoint, valid, Reply, SendResult, sent, unreachable,
  failed,
}
use plasma_network_health.Pinger.Packet.{
  k_magic, k_packet_size, IcmpHeader, Payload, header_bytes, payload_bytes, internet_checksum,
  from_le_bytes,
}

-- The errors that the source tells apart, and the rest by their number.
pub data Errno : Type 0 where
  enetunreach ehostunreach enetdown ehostdown econnrefused eacces eperm einval eafnosupport : Errno
  other_errno : ℕ → Errno

unfoldable pub is_unreachable_errno : Errno → Bool
is_unreachable_errno (other_errno n) = false
is_unreachable_errno _ = true

-- `m_fd >= 0`, `m_family` and `m_raw`.
pub record IcmpSocket : Type 0 where
  pub is_open : Bool
  pub family : ℕ
  pub is_raw : Bool

abbrev pub closed : IcmpSocket
closed = record { is_open = false; family = af_unspec; is_raw = false }

-- What socket(2) gives for a kind of socket.
pub data SocketCall : Type 0 where
  opened : SocketCall
  refused : Bytes → SocketCall

-- `open`: a datagram socket, or else a raw one. The result is the socket and the error text.
unfoldable pub open_socket : ℕ → SocketCall → SocketCall → IcmpSocket × Bytes
open_socket family opened raw = (record { is_open = true; family = family; is_raw = false }, [])
open_socket family (refused why) opened =
    (record { is_open = true; family = family; is_raw = true }, [])
open_socket family (refused why) (refused raw_why) = (
  closed,
  codes "ICMP socket unavailable (datagram: "
      ++ (why ++ (codes ", raw: " ++ (raw_why ++ codes ")"))),
)

abbrev pub icmp_echo : ℕ
icmp_echo = 8

abbrev pub icmp_echoreply : ℕ
icmp_echoreply = 0

abbrev pub icmp6_echo_request : ℕ
icmp6_echo_request = 128

abbrev pub icmp6_echo_reply : ℕ
icmp6_echo_reply = 129

unfoldable pub payload_for : ℕ → ℕ → ℕ → ℕ → Payload
payload_for uid seq sent_us cookie = record {
  magic = k_magic;
  cookie = cookie;
  uid = uid;
  seq = seq;
  sent_us = sent_us;
}

unfoldable pub header_for : IcmpSocket → ℕ → ℕ → ℕ → IcmpHeader
header_for socket uid seq checksum = record {
  type = if socket.family == af_inet6 then icmp6_echo_request else icmp_echo;
  code = 0;
  checksum = checksum;
  id = uid % u16_mod;
  sequence = seq % u16_mod;
}

-- The datagram that `send` hands to the kernel.
unfoldable pub build_packet : IcmpSocket → ℕ → ℕ → ℕ → ℕ → Bytes
unfolding header_for payload_for
build_packet socket uid seq sent_us cookie =
    let payload = payload_bytes (payload_for uid seq sent_us cookie) in
    let blank = header_bytes (header_for socket uid seq 0) ++ payload in
    if socket.is_raw && socket.family == af_inet
    then header_bytes (header_for socket uid seq (internet_checksum blank)) ++ payload
    else blank

-- What sendto(2) returns: EINTR and then more, a number of bytes with the errno of the moment, or an
-- error.
pub data SendtoCalls : Type 0 where
  interrupted : SendtoCalls → SendtoCalls
  wrote : ℕ → Errno → SendtoCalls
  refused_with : Errno → SendtoCalls

-- The loop around sendto. The second part is the error text, if there is one.
unfoldable pub send_loop : (Errno → Bytes) → SendtoCalls → SendResult × Option Bytes
send_loop strerror (interrupted calls) = send_loop strerror calls
send_loop strerror (wrote n err) =
    if n == k_packet_size
    then (sent, none)
    else (if is_unreachable_errno err then unreachable else failed, some (strerror err))
send_loop strerror (refused_with err) =
    (if is_unreachable_errno err then unreachable else failed, some (strerror err))

unfoldable pub send :
    (Errno → Bytes)
    → (Bytes → Endpoint → SendtoCalls)
    → IcmpSocket
    → Endpoint
    → ℕ
    → ℕ
    → ℕ
    → ℕ
    → SendResult × Option Bytes
unfolding send_loop
send strerror sendto socket endpoint uid seq sent_us cookie =
    if not socket.is_open || not (valid endpoint) || not (endpoint.family == socket.family)
    then (failed, some (codes "socket not ready for this address family"))
    else send_loop strerror (sendto (build_packet socket uid seq sent_us cookie) endpoint)

pub record Datagram : Type 0 where
  pub bytes : Bytes
  pub from : SockAddr
  pub from_len : ℕ

abbrev pub byte_at : Bytes → ℕ → ℕ
byte_at [] i = 0
byte_at (b ∷ bs) zero = b
byte_at (b ∷ bs) (suc i) = byte_at bs i

abbrev pub word_at : Bytes → ℕ → ℕ → ℕ
word_at bytes offset size = from_le_bytes (take size (drop offset bytes))

-- A raw IPv4 socket hands over the IP header too.
unfoldable pub strip_ip_header : IcmpSocket → Bytes → Option Bytes
strip_ip_header socket bytes =
    let header_length = byte_at bytes 0 % 16 * 4 in
    if not (socket.is_raw && socket.family == af_inet)
    then some bytes
    else if ltb (length bytes) 20
    then none
    else if ltb header_length 20 || ltb (length bytes) header_length
    then none
    else some (drop header_length bytes)

unfoldable pub read_reply : IcmpSocket → ℕ → Datagram → Bytes → Option Reply
read_reply socket cookie datagram bytes =
    let expected_type = if socket.family == af_inet6 then icmp6_echo_reply else icmp_echoreply in
    if ltb (length bytes) k_packet_size
    then none
    else if not (byte_at bytes 0 == expected_type) || not (byte_at bytes 1 == 0)
    then none
    else if not (word_at bytes 8 4 == k_magic) || not (word_at bytes 12 4 == cookie)
    then none
    else some (record {
      uid = word_at bytes 16 4;
      seq = word_at bytes 20 4;
      sent_us = word_at bytes 24 8;
      from = datagram.from;
      from_len = datagram.from_len;
    })

infixl 5 ◌>>=◌
abbrev ◌>>=◌ : {A B : Type 0} → Option A → (A → Option B) → Option B
none >>= f = none
some a >>= f = f a

-- The body of the loop over the datagrams of a batch.
unfoldable pub accept : IcmpSocket → ℕ → Datagram → Option Reply
unfolding strip_ip_header read_reply
accept socket cookie datagram = do
  bytes ← strip_ip_header socket datagram.bytes
  read_reply socket cookie datagram bytes

abbrev append_reply : Option Reply → List Reply → List Reply
append_reply none out = out
append_reply (some reply) out = out ++ reply ∷ []

unfoldable pub accept_all : IcmpSocket → ℕ → List Datagram → List Reply → List Reply
accept_all socket cookie [] out = out
accept_all socket cookie (d ∷ ds) out =
    accept_all socket cookie ds (append_reply (accept socket cookie d) out)

-- What recvmmsg(2) returns: EINTR and then more, an error (EAGAIN once the queue is drained), or a
-- batch of at most 32 datagrams, and then more.
pub data ReceiveCalls : Type 0 where
  receive_interrupted : ReceiveCalls → ReceiveCalls
  receive_error : ReceiveCalls
  batch : List Datagram → ReceiveCalls → ReceiveCalls

abbrev pub k_receive_batch : ℕ
k_receive_batch = 32

unfoldable pub receive_loop : IcmpSocket → ℕ → ReceiveCalls → List Reply → List Reply
receive_loop socket cookie (receive_interrupted calls) out = receive_loop socket cookie calls out
receive_loop socket cookie receive_error out = out
receive_loop socket cookie (batch [] calls) out = out
receive_loop socket cookie (batch (d ∷ ds) calls) out =
    let filled = accept_all socket cookie (d ∷ ds) out in
    let more = receive_loop socket cookie calls filled in
    if ltb (length (d ∷ ds)) k_receive_batch then filled else more

-- The replies appended to `out`; the returned count is their number.
unfoldable pub receive : IcmpSocket → ℕ → ReceiveCalls → List Reply → List Reply
unfolding receive_loop accept_all
receive socket cookie calls out =
    if not socket.is_open then out else receive_loop socket cookie calls out
