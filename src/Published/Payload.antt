-- ===== src/Published/Payload.antt =====
-- What the widget decodes from state.ini.
use plasma_network_health.Prelude.{
  ℕ, ◌<◌, ◌≡◌, ◌∙◌, ap, true, false, none, [], ◌∷◌, arith, Bytes, All,
}
use plasma_network_health.Util.Base64.{base64_decode, base64_decode-base64_encode}
use plasma_network_health.Json.Double.{Doubles, Documented}
use plasma_network_health.Json.Write.{dump}
use plasma_network_health.Json.Parse.{parse, value}
use plasma_network_health.Json.Printed.{Fits, reread}
use plasma_network_health.Json.RoundTrip.{parse-dump}
use plasma_network_health.Json.Ascii.{IsAscii, dump-IsAscii}
use plasma_network_health.Monitor.State.{Monitor}
use plasma_network_health.Published.{build_state_json, payload}

IsAscii-byte : (s : Bytes) → IsAscii s → All (λ b. b < 256) s
IsAscii-byte [] h = tt
IsAscii-byte (c ∷ cs) h = (omega (arith, h.0), IsAscii-byte cs h.1)

-- Decoding the payload of state.ini from base64 and reading the result as JSON gives the state of the
-- monitor that was published, each number as std::stod reads its text. The state's texts are in
-- UTF-8, its clients have different identifiers, and std::stod reads whole what `%.10g` prints of
-- each of its numbers that is finite and not an integer.
pub parse-base64_decode-payload :
    (ds : Doubles) (docs : Documented ds) (percent : ℕ → ℕ → ds.Double) (pid timestamp_us now : ℕ)
    (m : Monitor)
    → Fits ds true (build_state_json ds percent pid timestamp_us now false m) 64
    → parse ds (base64_decode (payload ds percent pid timestamp_us now m))
      ≡ value (reread ds (build_state_json ds percent pid timestamp_us now false m))
unfolding payload
parse-base64_decode-payload ds docs percent pid timestamp_us now m h =
    let v = build_state_json ds percent pid timestamp_us now false m in
    ap (parse ds) (
      base64_decode-base64_encode (dump ds none true v)
        (IsAscii-byte (dump ds none true v) (dump-IsAscii ds docs.print_g-IsNumberText none v)))
    ∙ parse-dump ds docs none true v h
