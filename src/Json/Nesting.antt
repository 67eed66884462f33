-- ===== src/Json/Nesting.antt =====
-- What is nested too deep is an error.
use plasma_network_health.Prelude.{
  ℕ, suc, ◌-◌, ◌≤◌, ◌≡◌, refl, sym, ap, ◌∙◌, false, List, [], ◌∷◌, ◌++◌, arith, Bytes, codes, ◌==◌,
  length, All,
}
use plasma_network_health.Util.Decimal.{to_string}
use plasma_network_health.Json.Double.{Doubles}
use plasma_network_health.Json.Reader.{failed, loop, is_space, skip_whitespace}
use plasma_network_health.Json.Parse.{
  array_round, parse_array, parse_value_inner, parse_value, parse, finish, error_text, error,
}
use plasma_network_health.Json.Printed.{IsBlank, skip_whitespace-blank, skip_whitespace-stop}

-- Brackets that open arrays, each after white space, and what follows.
unfoldable pub opened : List Bytes → Bytes → Bytes
opened [] rest = rest
opened (ws ∷ more) rest = ws ++ (b'[' ∷ opened more rest)

module _ (ds : Doubles) where
  -- An array whose first item fails.
  array_fails :
      (n d : ℕ) (text rest left : Bytes) (message : Bytes)
      → skip_whitespace text ≡ d ∷ rest
      → (d == b']') ≡ false
      → parse_value ds n (d ∷ rest) ≡ failed message left
      → parse_value ds (suc n) (b'[' ∷ text) ≡ failed message left
  unfolding parse_value parse_value_inner parse_array array_round loop
  array_fails n d text rest left message e other f =
      rw (skip_whitespace-stop b'[' text refl, e, other, f) refl

  parse_value-skip :
      (n : ℕ) (ws text : Bytes)
      → IsBlank ws
      → parse_value ds (suc n) (ws ++ text) ≡ parse_value ds (suc n) text
  unfolding parse_value parse_value_inner
  parse_value-skip n ws text h = rw (skip_whitespace-blank ws text h) refl

  module _ (ws : Bytes) (c : ℕ) (rest : Bytes) (blank : IsBlank ws) (text_c : is_space c ≡ false)
      (open_c : (c == b']') ≡ false) where
    -- What stands in the open arrays, from its first character, is refused at `c`.
    opened-fails :
        (blanks : List Bytes)
        → All IsBlank blanks
        → (d : ℕ) × (more : Bytes) × (skip_whitespace (opened blanks (ws ++ (c ∷ rest))) ≡ d ∷ more)
          × ((d == b']') ≡ false)
          × (parse_value ds (length blanks) (d ∷ more)
              ≡ failed (codes "nesting too deep") (c ∷ rest))
    unfolding opened
    opened-fails [] h = (
      c,
      rest,
      skip_whitespace-blank ws (c ∷ rest) blank ∙ skip_whitespace-stop c rest text_c,
      open_c,
      unfold parse_value in refl,
    )
    opened-fails (b ∷ blanks) h =
        let text = opened blanks (ws ++ (c ∷ rest)) in
        let (d, more, e, other, f) = opened-fails blanks h.1 in
        (
          b'[',
          text,
          skip_whitespace-blank b (b'[' ∷ text) h.0 ∙ skip_whitespace-stop b'[' text refl,
          refl,
          array_fails (length blanks) d text more (c ∷ rest) _ e other f,
        )

    parse_value-opened :
        (blanks : List Bytes)
        → All IsBlank blanks
        → 1 ≤ length blanks
        → parse_value ds (length blanks) (opened blanks (ws ++ (c ∷ rest)))
          ≡ failed (codes "nesting too deep") (c ∷ rest)
    unfolding opened
    parse_value-opened [] h k = absurd (omega (arith, k))
    parse_value-opened (b ∷ blanks) h k =
        let text = opened blanks (ws ++ (c ∷ rest)) in
        let (d, more, e, other, f) = opened-fails blanks h.1 in
        parse_value-skip (length blanks) b (b'[' ∷ text) h.0
        ∙ array_fails (length blanks) d text more (c ∷ rest) _ e other f

    -- A text that opens 64 arrays, each as the first item of the one before, with any white space
    -- before the brackets, is refused at the next character that is no white space, unless it closes
    -- the innermost array: whatever follows, the document is the error at that offset.
    pub parse-nesting_too_deep :
        (blanks : List Bytes)
        → All IsBlank blanks
        → length blanks ≡ 64
        → parse ds (opened blanks (ws ++ (c ∷ rest)))
          ≡ error (
              codes "nesting too deep at offset "
              ++ to_string (length (opened blanks (ws ++ (c ∷ rest))) - length (c ∷ rest)))
    unfolding parse error_text
    parse-nesting_too_deep blanks h k =
        let text = opened blanks (ws ++ (c ∷ rest)) in
        let deep : parse_value ds 64 text ≡ failed (codes "nesting too deep") (c ∷ rest) =
          ap (λ (n : ℕ). parse_value ds n text) (sym k)
          ∙ parse_value-opened blanks h (omega (arith, k)) in
        ap (finish ds text) deep
