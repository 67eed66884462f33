-- ===== src/Pinger/Packet.antt =====
-- The wire format of daemon/src/pinger.cpp: the checksum, the ICMP header and the payload, on a
-- little-endian machine. A byte is a number below 256.
use plasma_network_health.Prelude.{
  ℕ, zero, suc, ◌+◌, ◌-◌, ◌*◌, ◌/◌, ◌%◌, [], ◌∷◌, ◌++◌, Bytes, ◌==◌, if◌then◌else◌, u16_mod,
  u32_mod,
}

abbrev pub k_magic : ℕ
k_magic = 0x504E4831

-- sizeof(IcmpHeader) + sizeof(Payload)
abbrev pub k_packet_size : ℕ
k_packet_size = 8 + 24

pub record Payload : Type 0 where
  pub magic : ℕ
  pub cookie : ℕ
  pub uid : ℕ
  pub seq : ℕ
  pub sent_us : ℕ

-- `id` and `sequence` are the values before htons.
pub record IcmpHeader : Type 0 where
  pub type : ℕ
  pub code : ℕ
  pub checksum : ℕ
  pub id : ℕ
  pub sequence : ℕ

-- The bytes of an n-byte integer in memory.
abbrev pub le_bytes : ℕ → ℕ → Bytes
le_bytes zero x = []
le_bytes (suc n) x = x % 256 ∷ le_bytes n (x / 256)

abbrev pub from_le_bytes : Bytes → ℕ
from_le_bytes [] = 0
from_le_bytes (b ∷ bs) = b + 256 * from_le_bytes bs

-- What htons and memcpy make of a uint16_t.
abbrev pub be16 : ℕ → Bytes
be16 x = x / 256 % 256 ∷ x % 256 ∷ []

-- The sum over the 16-bit words, in uint32_t; a last odd byte is a word by itself.
unfoldable pub sum_words : Bytes → ℕ → ℕ
sum_words [] sum = sum
sum_words (b ∷ []) sum = (sum + b) % u32_mod
sum_words (b ∷ c ∷ bytes) sum = sum_words bytes ((sum + (b + 256 * c)) % u32_mod)

-- `while (sum >> 16)`, with fuel; three rounds are enough for any uint32_t.
unfoldable pub fold_carries : ℕ → ℕ → ℕ
fold_carries zero sum = sum
fold_carries (suc fuel) sum =
    let rest = fold_carries fuel (sum % u16_mod + sum / u16_mod) in
    if sum / u16_mod == 0 then sum else rest

unfoldable pub internet_checksum : Bytes → ℕ
unfolding sum_words fold_carries
internet_checksum bytes = u16_mod - 1 - fold_carries 3 (sum_words bytes 0) % u16_mod

unfoldable pub header_bytes : IcmpHeader → Bytes
header_bytes h = h.type ∷ h.code ∷ le_bytes 2 h.checksum ++ be16 h.id ++ be16 h.sequence

unfoldable pub payload_bytes : Payload → Bytes
payload_bytes p =
    le_bytes 4 p.magic
    ++ le_bytes 4 p.cookie
    ++ le_bytes 4 p.uid
    ++ le_bytes 4 p.seq
    ++ le_bytes 8 p.sent_us
