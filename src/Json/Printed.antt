-- ===== src/Json/Printed.antt =====
-- Which values a document can hold, what comes back of them, and the reading of what stands between
-- them: white space and numbers.
use plasma_network_health.Prelude.{
  ℕ, zero, suc, ◌+◌, ◌*◌, ◌/◌, ◌%◌, ◌≡◌, refl, inl, inr, Bool, true, false, not, Option, some, none,
  [], ◌∷◌, ◌++◌, arith, Bytes, ltb, ◌==◌, if◌then◌else◌, length, replicate, bytes_eq, is_empty, All,
  Bool-cases, ℤ, pos, negsuc,
}
use plasma_network_health.Util.Decimal.{digits, to_string, to_string-IsDigits, IsDigits}
use plasma_network_health.Json.Double.{Doubles, reads_whole, show_ℤ, is_number_char, IsNumberText}
use plasma_network_health.Json.Value.{
  Json, null, boolean, number, string, array, object, Items, nil, cons, Members, end, member,
}
use plasma_network_health.Json.Reader.{ok, skip_whitespace, is_space}
use plasma_network_health.Json.Write.{new_line, write_number}
use plasma_network_health.Json.Parse.{number_token, parse_number}
use plasma_network_health.Json.Quoting.{IsWritable}

-- No later key is the same.
abbrev pub Absent : {D : Type 0} → Bytes → Members D → Type 0
Absent key end = Unit
Absent key (member k v ms) = (bytes_eq key k ≡ false) × Absent key ms

-- At most so deep, with strings that can be written, numbers that std::stod reads whole, and no key
-- twice in an object.
module _ (ds : Doubles) (ascii_only : Bool) where
  unfoldable mutual
    pub Fits : Json ds.Double → ℕ → Type 0
    Fits v zero = ⊥
    Fits null (suc depth) = Unit
    Fits (boolean b) (suc depth) = Unit
    Fits (number v) (suc depth) = reads_whole ds v ≡ true
    Fits (string s) (suc depth) = IsWritable ascii_only s
    Fits (array xs) (suc depth) = FitsItems xs depth
    Fits (object ms) (suc depth) = FitsMembers ms depth

    pub FitsItems : Items ds.Double → ℕ → Type 0
    FitsItems nil depth = Unit
    FitsItems (cons x xs) depth = Fits x depth × FitsItems xs depth

    pub FitsMembers : Members ds.Double → ℕ → Type 0
    FitsMembers end depth = Unit
    FitsMembers (member k v ms) depth =
        IsWritable ascii_only k × Fits v depth × Absent k ms × FitsMembers ms depth

module _ (ds : Doubles) where
  abbrev reread_found : Option (ds.Double × ℕ) → Json ds.Double
  reread_found (some (v, consumed)) = number v
  reread_found none = null

  -- What comes back of a number: null if it is not finite, and otherwise what std::stod reads of its text.
  unfoldable pub reread_number : ds.Double → Json ds.Double
  reread_number v =
      if not (ds.is_finite v) then null else reread_found (ds.read (write_number ds v))

  unfoldable mutual
    pub reread : Json ds.Double → Json ds.Double
    reread null = null
    reread (boolean b) = boolean b
    reread (number v) = reread_number v
    reread (string s) = string s
    reread (array xs) = array (reread_items xs)
    reread (object ms) = object (reread_members ms)

    pub reread_items : Items ds.Double → Items ds.Double
    reread_items nil = nil
    reread_items (cons x xs) = cons (reread x) (reread_items xs)

    pub reread_members : Members ds.Double → Members ds.Double
    reread_members end = end
    reread_members (member k v ms) = member k (reread v) (reread_members ms)

abbrev pub IsBlank : Bytes → Type 0
IsBlank = All (λ c. is_space c ≡ true)

pub skip_whitespace-blank :
    (ws text : Bytes) → IsBlank ws → skip_whitespace (ws ++ text) ≡ skip_whitespace text
unfolding skip_whitespace
skip_whitespace-blank [] text h = refl
skip_whitespace-blank (c ∷ ws) text h = rw (h.0) (skip_whitespace-blank ws text h.1)

pub skip_whitespace-stop :
    (c : ℕ) (rest : Bytes) → is_space c ≡ false → skip_whitespace (c ∷ rest) ≡ c ∷ rest
unfolding skip_whitespace
skip_whitespace-stop c rest h = rw h refl

replicate-IsBlank : (n : ℕ) → IsBlank (replicate n 32)
replicate-IsBlank zero = tt
replicate-IsBlank (suc n) = (refl, replicate-IsBlank n)

pub new_line-IsBlank : (indent : Option ℕ) (depth : ℕ) → IsBlank (new_line indent depth)
unfolding new_line
new_line-IsBlank none depth = tt
new_line-IsBlank (some n) depth = (refl, replicate-IsBlank (n * depth))

-- The text does not go on with a character of a number.
abbrev pub Stops : Bytes → Type 0
Stops [] = Unit
Stops (c ∷ rest) = is_number_char c ≡ false

number_token-Stops : (rest : Bytes) → Stops rest → number_token rest ≡ ([], rest)
unfolding number_token
number_token-Stops [] h = refl
number_token-Stops (c ∷ rest) h = rw h refl

number_token-append :
    (text rest : Bytes)
    → All (λ c. is_number_char c ≡ true) text
    → Stops rest
    → number_token (text ++ rest) ≡ (text, rest)
unfolding number_token
number_token-append [] rest h k = number_token-Stops rest k
number_token-append (c ∷ text) rest h k = rw (h.0, number_token-append text rest h.1 k) refl

pub parse_number-append :
    (ds : Doubles) (text rest : Bytes) (v : ds.Double)
    → IsNumberText text
    → ds.read text ≡ some (v, length text)
    → Stops rest
    → parse_number ds (text ++ rest) ≡ ok (number v) rest
unfolding parse_number
parse_number-append ds text rest v h e k =
    let same : (length text == length text) ≡ true = ground arith in
    rw (number_token-append text rest h.1 k, h.0, e, same) refl

digits-IsNumber : (text : Bytes) → IsDigits text → All (λ c. is_number_char c ≡ true) text
digits-IsNumber [] h = tt
digits-IsNumber (c ∷ text) h = (ground arith, digits-IsNumber text h.1)

digits_nonempty : (fuel n c : ℕ) (out : Bytes) → is_empty (digits fuel n (c ∷ out)) ≡ false
unfolding digits
digits_nonempty zero n c out = refl
digits_nonempty (suc fuel) n c out = elim (Bool-cases (ltb n 10)) [
  | inl e ↦ rw e refl
  | inr e ↦ rw e (digits_nonempty fuel (n / 10) (b'0' + n % 10) (c ∷ out))
]

pub to_string-IsNumberText : (n : ℕ) → IsNumberText (to_string n)
unfolding to_string digits
to_string-IsNumberText n = (
  elim (Bool-cases (ltb n 10)) [
    | inl e ↦ rw e refl
    | inr e ↦ rw e (digits_nonempty 19 (n / 10) (b'0' + n % 10) [])
  ],
  digits-IsNumber (to_string n) (to_string-IsDigits n),
)

pub show_ℤ-IsNumberText : (z : ℤ) → IsNumberText (show_ℤ z)
unfolding show_ℤ
show_ℤ-IsNumberText (pos n) = to_string-IsNumberText n
show_ℤ-IsNumberText (negsuc n) = (refl, (refl, (to_string-IsNumberText (n + 1)).1))
