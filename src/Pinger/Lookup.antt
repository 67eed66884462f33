-- ===== src/Pinger/Lookup.antt =====
-- `lookup` of daemon/src/pinger.cpp, over what getaddrinfo(3) returned.
use plasma_network_health.Prelude.{
  ℕ, List, [], ◌∷◌, Option, none, some, Bytes, codes, ◌==◌, if◌then◌else◌, ◌≡◌, refl, arith,
}
use plasma_network_health.Pinger.Endpoint.{af_inet, af_inet6, SockAddr, Endpoint}

pub record AddrInfo : Type 0 where
  pub ai_family : ℕ
  pub ai_addr : SockAddr
  pub ai_addrlen : ℕ

-- The loop over the results, with the candidate so far: the first IPv4 address ends it.
unfoldable pub choose : Option AddrInfo → List AddrInfo → Option AddrInfo
choose chosen [] = chosen
choose (some c) (it ∷ rest) =
    let more = choose (some c) rest in if it.ai_family == af_inet then some it else more
choose none (it ∷ rest) =
    let more = choose (if it.ai_family == af_inet6 then some it else none) rest in
    if it.ai_family == af_inet then some it else more

-- An error of getaddrinfo with gai_strerror's text for it, or the list of results.
pub data GetAddrInfo : Type 0 where
  gai_error : Bytes → GetAddrInfo
  gai_results : List AddrInfo → GetAddrInfo

pub data LookupResult : Type 0 where
  found : Endpoint → LookupResult
  lookup_error : Bytes → LookupResult

-- `format_address` is getnameinfo's numeric text of an address.
unfoldable pub endpoint_of : (SockAddr → ℕ → Bytes) → Option AddrInfo → LookupResult
endpoint_of format_address none = lookup_error (codes "no usable address")
endpoint_of format_address (some chosen) = found (record {
  family = chosen.ai_family;
  addr = chosen.ai_addr;
  len = chosen.ai_addrlen;
  text = format_address chosen.ai_addr chosen.ai_addrlen;
})

unfoldable pub lookup : (SockAddr → ℕ → Bytes) → GetAddrInfo → LookupResult
unfolding choose endpoint_of
lookup format_address (gai_error why) = lookup_error why
lookup format_address (gai_results infos) = endpoint_of format_address (choose none infos)

-- What getaddrinfo(3) answers about a text with AI_NUMERICHOST | AI_NUMERICSERV, and getnameinfo(3).
pub record Names : Type 0 where
  pub numeric_info : Bytes → GetAddrInfo
  pub format_address : SockAddr → ℕ → Bytes

abbrev endpoint_found : LookupResult → Option Endpoint
endpoint_found (found e) = some e
endpoint_found (lookup_error why) = none

unfoldable pub parse_numeric_address : Names → Bytes → Option Endpoint
parse_numeric_address names [] = none
parse_numeric_address names (c ∷ cs) =
    endpoint_found (lookup names.format_address (names.numeric_info (c ∷ cs)))

-- The first result of a family.
pub first_of_family : ℕ → List AddrInfo → Option AddrInfo
first_of_family f [] = none
first_of_family f (it ∷ rest) = if it.ai_family == f then some it else first_of_family f rest

abbrev pub or_else : Option AddrInfo → Option AddrInfo → Option AddrInfo
or_else (some a) o = some a
or_else none o = o

choose-some :
    (c : AddrInfo) (infos : List AddrInfo)
    → choose (some c) infos ≡ or_else (first_of_family af_inet infos) (some c)
unfolding choose first_of_family
choose-some c [] = refl
choose-some c (it ∷ rest) = ground (arith, choose-some c rest)

-- The loop picks the first IPv4 result, and the first IPv6 result only if there is no IPv4 one.
pub choose_prefers_ipv4 :
    (infos : List AddrInfo)
    → choose none infos ≡ or_else (first_of_family af_inet infos) (first_of_family af_inet6 infos)
unfolding choose first_of_family
choose_prefers_ipv4 [] = refl
choose_prefers_ipv4 (it ∷ rest) = ground (arith, choose_prefers_ipv4 rest, choose-some it rest)
