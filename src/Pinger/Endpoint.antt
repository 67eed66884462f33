-- ===== src/Pinger/Endpoint.antt =====
-- `Endpoint`, `Reply` and `SendResult` of daemon/src/pinger.h, and `Endpoint::matches`.
use plasma_network_health.Prelude.{
  ℕ, ◌≡◌, ◌↔◌, Bool, true, false, not, ◌&&◌, ◌||◌, [], arith, Bytes, ltb, ◌==◌, bytes_eq,
  bytes_eq_sound, bytes_eq_refl, if◌then◌else◌, ◌<◌, ap,
}

abbrev pub af_unspec : ℕ
af_unspec = 0

abbrev pub af_inet : ℕ
af_inet = 2

abbrev pub af_inet6 : ℕ
af_inet6 = 10

-- Of a sockaddr_storage: the family, and the bytes of `sin_addr` or `sin6_addr`.
pub record SockAddr : Type 0 where
  pub ss_family : ℕ
  pub address : Bytes

abbrev pub no_address : SockAddr
no_address = record { ss_family = 0; address = [] }

pub record Endpoint : Type 0 where
  pub family : ℕ
  pub addr : SockAddr
  pub len : ℕ
  pub text : Bytes

abbrev pub no_endpoint : Endpoint
no_endpoint = record { family = af_unspec; addr = no_address; len = 0; text = [] }

abbrev pub valid : Endpoint → Bool
valid e = not (e.family == af_unspec) && ltb 0 e.len

unfoldable pub matches : Endpoint → SockAddr → ℕ → Bool
matches e other other_len =
    if not (valid e) || other_len == 0
    then false
    else if not (other.ss_family == e.addr.ss_family)
    then false
    else if e.addr.ss_family == af_inet || e.addr.ss_family == af_inet6
    then bytes_eq e.addr.address other.address
    else false

pub record Reply : Type 0 where
  pub uid : ℕ
  pub seq : ℕ
  pub sent_us : ℕ
  pub from : SockAddr
  pub from_len : ℕ

pub data SendResult : Type 0 where
  sent unreachable failed : SendResult

-- A reply's source matches exactly when it has a length and is the very address, of IPv4 or IPv6,
-- that a valid endpoint holds.
pub matches_exactly :
    (e : Endpoint) (other : SockAddr) (n : ℕ)
    → (matches e other n ≡ true) ↔ (
        (valid e ≡ true)
        × (0 < n)
        × (other ≡ e.addr)
        × ((e.addr.ss_family == af_inet || e.addr.ss_family == af_inet6) ≡ true))
unfolding matches
matches_exactly e other n = (
  λ h. ground (arith, bytes_eq_sound e.addr.address other.address),
  λ h. ground (
    arith,
    bytes_eq_refl e.addr.address,
    ap (λ (a : SockAddr). a.address) h.2,
    ap (λ (a : SockAddr). a.ss_family) h.2,
  ),
)
