-- ===== src/Json/Ascii.antt =====
-- With `asciiOnly` nothing but ASCII is written.
use plasma_network_health.Prelude.{
  ℕ, zero, suc, ◌+◌, ◌*◌, ◌-◌, ◌/◌, ◌%◌, ◌<◌, ◌≡◌, inl, inr, Bool, true, false, ◌&&◌, Option, some,
  none, [], ◌∷◌, ◌++◌, arith, Bytes, ltb, leb, ◌==◌, length, replicate, All, All-append, Bool-cases,
  if-cases, Option-cases,
}
use plasma_network_health.Json.Double.{Doubles, PrintsNumbers, is_number_char}
use plasma_network_health.Json.Value.{
  Json, null, boolean, number, string, array, object, Items, nil, cons, Members, end, member,
}
use plasma_network_health.Json.Text.{
  escape_unit, write_escaped_code_point, write_char, lead, continue_code_point, write_wide, Piece,
  piece, write_chars, write_string,
}
use plasma_network_health.Json.Write.{
  new_line, gap, comma, write_number, write, write_items, write_members, dump,
}
use plasma_network_health.Json.Printed.{show_ℤ-IsNumberText}

abbrev pub IsAscii : Bytes → Type 0
IsAscii = All (λ c. c < 0x80)

abbrev join : (xs ys : Bytes) → IsAscii xs → IsAscii ys → IsAscii (xs ++ ys)
join = All-append (λ c. c < 0x80)

escape_unit-IsAscii : (v : ℕ) → IsAscii (escape_unit v)
unfolding escape_unit
escape_unit-IsAscii v =
    (omega arith, (omega arith, (ground arith, (ground arith, (ground arith, (ground arith, tt))))))

write_escaped-IsAscii : (cp : ℕ) → IsAscii (write_escaped_code_point cp)
unfolding write_escaped_code_point
write_escaped-IsAscii cp =
    if-cases IsAscii (ltb cp 0x10000) _ _ (λ h. escape_unit-IsAscii cp)
      (λ h.
        let high = 0xd800 + (cp - 0x10000) / 1024 in
        let low = 0xdc00 + (cp - 0x10000) % 1024 in
        join (escape_unit high) (escape_unit low) (escape_unit-IsAscii high)
          (escape_unit-IsAscii low))

write_char-IsAscii : (c : ℕ) → c < 0x80 → IsAscii (write_char c)
unfolding write_char
write_char-IsAscii c h =
    if-cases IsAscii (c == b'"') _ _ (λ e. omega arith)
      (λ e.
        if-cases IsAscii (c == b'\\') _ _ (λ e. omega arith)
          (λ e.
            if-cases IsAscii (c == 8) _ _ (λ e. omega arith)
              (λ e.
                if-cases IsAscii (c == 12) _ _ (λ e. omega arith)
                  (λ e.
                    if-cases IsAscii (c == 10) _ _ (λ e. omega arith)
                      (λ e.
                        if-cases IsAscii (c == 13) _ _ (λ e. omega arith)
                          (λ e.
                            if-cases IsAscii (c == 9) _ _ (λ e. omega arith)
                              (λ e.
                                if-cases IsAscii (ltb c 0x20) _ _ (λ e. write_escaped-IsAscii c)
                                  (λ e. (h, tt)))))))))

write_wide-IsAscii : (c : ℕ) (rest : Bytes) → IsAscii (write_wide c rest).text
unfolding write_wide
write_wide-IsAscii c rest = elim (Option-cases (lead c)) [
  | inl e ↦ rw e (omega arith)
  | inr ((bits, extra), e) ↦ rw e (
      if-cases (λ (p : Piece). IsAscii p.text) (ltb (length rest) extra) _ _ (λ h. omega arith)
        (λ h. elim (Option-cases (continue_code_point extra bits rest)) [
          | inl k ↦ rw k (omega arith)
          | inr (cp, k) ↦ rw k (write_escaped-IsAscii cp)
        ]))
]

piece-IsAscii : (c : ℕ) (rest : Bytes) → IsAscii (piece true c rest).text
unfolding piece
piece-IsAscii c rest =
    if-cases (λ (p : Piece). IsAscii p.text) (true && leb 0x80 c) _ _
      (λ h. write_wide-IsAscii c rest) (λ h. write_char-IsAscii c (ground arith))

write_chars-IsAscii : (skip : ℕ) (s : Bytes) → IsAscii (write_chars true skip s)
unfolding write_chars
write_chars-IsAscii skip [] = tt
write_chars-IsAscii (suc skip) (c ∷ s) = write_chars-IsAscii skip s
write_chars-IsAscii zero (c ∷ s) =
    let p = piece true c s in
    join p.text _ (piece-IsAscii c s)
      (stopped (write_chars true p.skip s) p.stop (write_chars-IsAscii p.skip s))
  where
    stopped :
        (more : Bytes) (b : Bool) → IsAscii more → IsAscii (elim b [ true ↦ [] | false ↦ more ])
    stopped more true h = tt
    stopped more false h = h

write_string-IsAscii : (s : Bytes) → IsAscii (write_string true s)
unfolding write_string
write_string-IsAscii s = (omega arith, join _ _ (write_chars-IsAscii 0 s) (omega arith))

IsNumberText-IsAscii : (text : Bytes) → All (λ c. is_number_char c ≡ true) text → IsAscii text
IsNumberText-IsAscii [] h = tt
IsNumberText-IsAscii (c ∷ text) h = (ground arith, IsNumberText-IsAscii text h.1)

replicate-IsAscii : (n : ℕ) → IsAscii (replicate n 32)
replicate-IsAscii zero = tt
replicate-IsAscii (suc n) = (omega arith, replicate-IsAscii n)

new_line-IsAscii : (indent : Option ℕ) (depth : ℕ) → IsAscii (new_line indent depth)
unfolding new_line
new_line-IsAscii none depth = tt
new_line-IsAscii (some i) depth = (omega arith, replicate-IsAscii (i * depth))

gap-IsAscii : (indent : Option ℕ) → IsAscii (gap indent)
gap-IsAscii none = tt
gap-IsAscii (some i) = (omega arith, tt)

comma-IsAscii : (first : Bool) → IsAscii (comma first)
comma-IsAscii true = tt
comma-IsAscii false = (omega arith, tt)

module _ (ds : Doubles) (prints : PrintsNumbers ds) (indent : Option ℕ) where
  write_number-IsAscii : (v : ds.Double) → IsAscii (write_number ds v)
  unfolding write_number
  write_number-IsAscii v = elim (Bool-cases (ds.is_finite v)) [
    | inr e ↦ rw e (omega arith)
    | inl e ↦ elim (Bool-cases (ds.is_integral v)) [
      | inl i ↦ rw (e, i) (IsNumberText-IsAscii _ (show_ℤ-IsNumberText (ds.to_long v)).1)
      | inr i ↦ rw (e, i) (IsNumberText-IsAscii _ (prints v e i).1)
    ]
  ]

  abbrev WritesAscii : Json ds.Double → Type 0
  WritesAscii v = (depth : ℕ) → IsAscii (write ds indent true depth v)

  abbrev ItemsAscii : Items ds.Double → Type 0
  ItemsAscii xs = (first : Bool) (depth : ℕ) → IsAscii (write_items ds indent true first depth xs)

  abbrev MembersAscii : Members ds.Double → Type 0
  MembersAscii ms =
      (first : Bool) (depth : ℕ) → IsAscii (write_members ds indent true first depth ms)

  array-Ascii : (xs : Items ds.Double) → ItemsAscii xs → WritesAscii (array xs)
  unfolding write
  array-Ascii nil h depth = omega arith
  array-Ascii (cons x xs) h depth = (
    omega arith,
    join _ _ (h true (suc depth)) (join _ _ (new_line-IsAscii indent depth) (omega arith)),
  )

  object-Ascii : (ms : Members ds.Double) → MembersAscii ms → WritesAscii (object ms)
  unfolding write
  object-Ascii end h depth = omega arith
  object-Ascii (member k v ms) h depth = (
    omega arith,
    join _ _ (h true (suc depth)) (join _ _ (new_line-IsAscii indent depth) (omega arith)),
  )

  write-Ascii : (v : Json ds.Double) → WritesAscii v
  unfolding write
  write-Ascii v = elim v as WritesAscii ItemsAscii MembersAscii [
    | null ↦ λ depth. omega arith
    | boolean b ↦ λ depth. if-cases IsAscii b _ _ (λ h. omega arith) (λ h. omega arith)
    | number w ↦ λ depth. write_number-IsAscii w
    | string s ↦ λ depth. write_string-IsAscii s
    | array (xs → ih) ↦ array-Ascii xs ih
    | object (ms → ih) ↦ object-Ascii ms ih
    | nil ↦ λ first depth. tt
    | cons (x → ih) (xs → ihs) ↦ λ first depth.
        join _ _ (comma-IsAscii first)
          (join _ _ (new_line-IsAscii indent depth) (join _ _ (ih depth) (ihs false depth)))
    | end ↦ λ first depth. tt
    | member k (w → ih) (ms → ihs) ↦ λ first depth. join _ _ (comma-IsAscii first) (
        join _ _ (new_line-IsAscii indent depth) (
          join _ _ (write_string-IsAscii k)
            (omega arith, join _ _ (gap-IsAscii indent) (join _ _ (ih depth) (ihs false depth)))))
  ]

  -- Written with ASCII only, a document has no byte above 127, whatever bytes its strings and keys
  -- hold, UTF-8 or not. `%.10g` prints the
  -- characters of a number only.
  pub dump-IsAscii : (v : Json ds.Double) → IsAscii (dump ds indent true v)
  unfolding dump
  dump-IsAscii v = write-Ascii v 0
