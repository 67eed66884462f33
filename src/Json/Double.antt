-- ===== src/Json/Double.antt =====
-- What daemon/src/json.hpp asks of the type `double` and of the functions that print and read it.
use plasma_network_health.Prelude.{
  ℕ, ◌+◌, ◌≡◌, refl, ◌∷◌, Bool, true, false, Option, some, none, Bytes, ℤ, pos, negsuc, length, leb,
  ◌==◌, ◌&&◌, ◌||◌, not, arith, All, is_empty,
}
use plasma_network_health.Util.Decimal.{to_string}

-- A `%lld`, and std::to_string of a signed number.
unfoldable pub show_ℤ : ℤ → Bytes
show_ℤ (pos n) = to_string n
show_ℤ (negsuc n) = b'-' ∷ to_string (n + 1)

-- `is_integral v` is `v == floor(v) && fabs(v) < 9.0e15`, `to_long` the cast to `long long`, `round` that of
-- `v < 0 ? v - 0.5 : v + 0.5`, `print_g` the text of `%.10g`, and `read` std::stod with the number of characters
-- that it consumed, or nothing where it throws.
pub record Doubles : Type 1 where
  pub Double : Type 0
  pub is_finite : Double → Bool
  pub is_integral : Double → Bool
  pub is_zero : Double → Bool
  pub of_ℤ : ℤ → Double
  pub to_long : Double → ℤ
  pub round : Double → ℤ
  pub print_g : Double → Bytes
  pub read : Bytes → Option (Double × ℕ)

-- The characters of the loop in parseNumber.
abbrev pub is_number_char : ℕ → Bool
is_number_char c =
    (leb b'0' c && leb c b'9') || c == b'.' || c == b'e' || c == b'E' || c == b'+' || c == b'-'

abbrev pub IsNumberText : Bytes → Type 0
IsNumberText text = (is_empty text ≡ false) × All (λ c. is_number_char c ≡ true) text

-- `%.10g` of a finite number has the characters of a number only.
abbrev pub PrintsNumbers : Doubles → Type 0
PrintsNumbers ds =
    (v : ds.Double) → ds.is_finite v ≡ true → ds.is_integral v ≡ false → IsNumberText (ds.print_g v)

-- std::stod reads an integer that is exact in a double as the conversion of that integer.
pub record Documented (ds : Doubles) : Type 0 where
  pub read_integer :
      (v : ds.Double)
      → ds.is_finite v ≡ true
      → ds.is_integral v ≡ true
      → ds.read (show_ℤ (ds.to_long v))
        ≡ some (ds.of_ℤ (ds.to_long v), length (show_ℤ (ds.to_long v)))
  pub print_g-IsNumberText : PrintsNumbers ds

abbrev is_whole : {D : Type 0} → Bytes → Option (D × ℕ) → Bool
is_whole text (some (v, consumed)) = consumed == length text
is_whole text none = false

-- std::stod reads the whole of what `%.10g` printed: it does not of the largest and of the smallest
-- numbers, for which it throws. A number that is not finite or is an integer is printed otherwise.
unfoldable pub reads_whole : (ds : Doubles) → ds.Double → Bool
reads_whole ds v =
    not (ds.is_finite v) || (ds.is_integral v || is_whole (ds.print_g v) (ds.read (ds.print_g v)))

is_whole-read :
    {D : Type 0} (text : Bytes) (r : Option (D × ℕ))
    → is_whole text r ≡ true
    → (w : D) × (r ≡ some (w, length text))
is_whole-read text none h = cc
is_whole-read text (some (w, consumed)) h =
    let same : consumed ≡ length text = ground arith in (w, rw same refl)

finite_real :
    (f i whole : Bool) → f ≡ true → i ≡ false → (not f || (i || whole)) ≡ true → whole ≡ true
finite_real true false whole finite real h = h
finite_real true true whole finite real h = cc
finite_real false i whole finite real h = cc

pub reads_whole-read :
    (ds : Doubles) (v : ds.Double)
    → ds.is_finite v ≡ true
    → ds.is_integral v ≡ false
    → reads_whole ds v ≡ true
    → (w : ds.Double) × (ds.read (ds.print_g v) ≡ some (w, length (ds.print_g v)))
unfolding reads_whole
reads_whole-read ds v finite real h =
    is_whole-read (ds.print_g v) (ds.read (ds.print_g v))
      (finite_real (ds.is_finite v) (ds.is_integral v) (_) finite real h)
