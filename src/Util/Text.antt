-- ===== src/Util/Text.antt =====
-- `trimmed` and `hasSuffix` (daemon/src/util.cpp).
use plasma_network_health.Prelude.{
  ℕ, ◌-◌, ◌≡◌, refl, ap, ◌∙◌, inl, inr, Bool, true, false, ◌&&◌, ◌||◌, [], ◌∷◌, ◌++◌, arith, Bytes,
  leb, ◌==◌, if◌then◌else◌, is_empty, length, drop, bytes_eq, All, Bool-cases,
}

-- isspace(3) in the C locale.
abbrev pub isspace : ℕ → Bool
isspace c = c == 32 || (leb 9 c && leb c 13)

-- The loop that moves `begin`.
unfoldable pub trim_front : Bytes → Bytes
trim_front [] = []
trim_front (c ∷ cs) = let rest = trim_front cs in if isspace c then rest else c ∷ cs

-- The loop that moves `end`: spaces go while nothing is left behind them.
unfoldable pub trim_back : Bytes → Bytes
trim_back [] = []
trim_back (c ∷ cs) = let rest = trim_back cs in if is_empty rest && isspace c then [] else c ∷ rest

unfoldable pub trimmed : Bytes → Bytes
unfolding trim_front trim_back
trimmed value = trim_back (trim_front value)

unfoldable pub has_suffix : Bytes → Bytes → Bool
has_suffix value suffix =
    leb (length suffix) (length value)
    && bytes_eq (drop (length value - length suffix) value) suffix

abbrev pub IsSpaces : Bytes → Type 0
IsSpaces = All (λ c. isspace c ≡ true)

abbrev pub BeginsClear : Bytes → Type 0
BeginsClear [] = Unit
BeginsClear (c ∷ cs) = isspace c ≡ false

abbrev pub EndsClear : Bytes → Type 0
EndsClear [] = Unit
EndsClear (c ∷ []) = isspace c ≡ false
EndsClear (c ∷ d ∷ cs) = EndsClear (d ∷ cs)

front_lem :
    (s : Bytes)
    → (front : Bytes) × IsSpaces front × (s ≡ front ++ trim_front s) × BeginsClear (trim_front s)
unfolding trim_front
front_lem [] = ([], tt, refl, tt)
front_lem (c ∷ cs) = elim (Bool-cases (isspace c)) [
  | inl e ↦
      let (front, spaces, split, clear) = front_lem cs in
      (c ∷ front, (e, spaces), rw e (ap (λ (t : Bytes). c ∷ t) split), rw e clear)
  | inr e ↦ ([], tt, rw e refl, rw e e)
]

EndsClear-cons : (c : ℕ) (cs : Bytes) → is_empty cs ≡ false → EndsClear cs → EndsClear (c ∷ cs)
EndsClear-cons c [] h k = cc
EndsClear-cons c (d ∷ cs) h k = k

EndsClear-front :
    (c : ℕ) (cs : Bytes) → (is_empty cs && isspace c) ≡ false → EndsClear cs → EndsClear (c ∷ cs)
EndsClear-front c [] h k = h
EndsClear-front c (d ∷ cs) h k = k

empty_lem : (s : Bytes) → is_empty s ≡ true → s ≡ []
empty_lem [] h = refl
empty_lem (c ∷ cs) h = cc

back_lem :
    (s : Bytes)
    → (back : Bytes) × IsSpaces back × (s ≡ trim_back s ++ back) × EndsClear (trim_back s)
unfolding trim_back
back_lem [] = ([], tt, refl, tt)
back_lem (c ∷ cs) =
    let (back, spaces, split, clear) = back_lem cs in
    elim (Bool-cases (is_empty (trim_back cs) && isspace c)) [
      | inl e ↦
          let none_left : trim_back cs ≡ [] = empty_lem (trim_back cs) (ground (arith, e)) in
          let space : isspace c ≡ true = ground (arith, e) in
          let whole : cs ≡ back = split ∙ ap (λ (t : Bytes). t ++ back) none_left in
          (c ∷ back, (space, spaces), rw e (ap (λ (t : Bytes). c ∷ t) whole), rw e tt)
      | inr e ↦ (
        back,
        spaces,
        rw e (ap (λ (t : Bytes). c ∷ t) split),
        rw e (EndsClear-front c (trim_back cs) e clear),
      )
    ]

BeginsClear-trim_back : (s : Bytes) → BeginsClear s → BeginsClear (trim_back s)
unfolding trim_back
BeginsClear-trim_back [] h = tt
BeginsClear-trim_back (c ∷ cs) h = ground arith

-- Trimming takes white space off both ends and nothing else: the text is white space, the result and
-- white space, and the result neither begins nor ends with white space.
pub trimmed_lem :
    (s : Bytes)
    → (front : Bytes) × (back : Bytes) × IsSpaces front
      × IsSpaces back
      × (s ≡ front ++ (trimmed s ++ back))
      × BeginsClear (trimmed s)
      × EndsClear (trimmed s)
unfolding trimmed
trimmed_lem s =
    let (front, f_spaces, f_split, f_clear) = front_lem s in
    let (back, b_spaces, b_split, b_clear) = back_lem (trim_front s) in
    (
      front,
      back,
      f_spaces,
      b_spaces,
      f_split ∙ ap (λ (t : Bytes). front ++ t) b_split,
      BeginsClear-trim_back (trim_front s) f_clear,
      b_clear,
    )
