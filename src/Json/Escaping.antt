-- ===== src/Json/Escaping.antt =====
-- With ASCII only, writeString writes the escape of each code point of a text in UTF-8.
use plasma_network_health.Prelude.{
  ℕ, ◌+◌, ◌*◌, ◌/◌, ◌%◌, ◌<◌, ◌≤◌, ◌≡◌, inl, inr, refl, ap, Bool, true, false, ◌&&◌, some, [], ◌∷◌,
  ◌++◌, arith, Bytes, ltb, leb, if◌then◌else◌, length, Bool-cases,
}
use plasma_network_health.Json.Text.{
  write_escaped_code_point, write_char, lead, continue_code_point, write_wide, Piece, piece,
  write_chars,
}
use plasma_network_health.Json.Reader.{append_utf8}

-- The piece for one code point.
unfoldable pub escaped : ℕ → Bytes
escaped cp = if ltb cp 0x80 then write_char cp else write_escaped_code_point cp

write_chars-piece :
    (ascii_only : Bool) (c : ℕ) (rest : Bytes) (p : Piece)
    → piece ascii_only c rest ≡ p
    → write_chars ascii_only 0 (c ∷ rest)
      ≡ p.text ++ elim p.stop [ true ↦ [] | false ↦ write_chars ascii_only p.skip rest ]
unfolding write_chars
write_chars-piece ascii_only c rest p = ap (λ (q : Piece).
    q.text ++ elim q.stop [ true ↦ [] | false ↦ write_chars ascii_only q.skip rest ])

abbrev wide_piece : ℕ → ℕ → Piece
wide_piece cp skip = record { text = write_escaped_code_point cp; skip = skip; stop = false }

piece-wide :
    (c : ℕ) (rest : Bytes) (p : Piece)
    → leb 0x80 c ≡ true
    → write_wide c rest ≡ p
    → piece true c rest ≡ p
unfolding piece
piece-wide c rest p h e = rw (h, e) refl

write_chars-ascii :
    (c : ℕ) (s : Bytes)
    → ltb c 0x80 ≡ true
    → write_chars true 0 (c ∷ s) ≡ write_char c ++ write_chars true 0 s
unfolding piece
write_chars-ascii c s h =
    let k : leb 0x80 c ≡ false = ground arith in
    write_chars-piece true c s (record { text = write_char c; skip = 0; stop = false }) (rw k refl)

pub escaped_wide : (cp : ℕ) → ltb cp 0x80 ≡ false → escaped cp ≡ write_escaped_code_point cp
unfolding escaped
escaped_wide cp h = rw h refl

module _ (cp : ℕ) (s : Bytes) where
  wide_two :
      0x80 ≤ cp → cp < 0x800 → write_wide (0xc0 + cp / 64) ((0x80 + cp % 64) ∷ s) ≡ wide_piece cp 1
  unfolding write_wide lead continue_code_point
  wide_two h k =
      let e : (0xc0 + cp / 64) % 32 * 64 + (0x80 + cp % 64) % 64 ≡ cp = omega arith in
      let l : lead (0xc0 + cp / 64) ≡ some ((0xc0 + cp / 64) % 32, 1) = ground arith in
      let b : (leb 0x80 (0x80 + cp % 64) && ltb (0x80 + cp % 64) 0xc0) ≡ true = ground arith in
      let long : ltb (length ((0x80 + cp % 64) ∷ s)) 1 ≡ false = ground arith in
      rw (l, long, b, e) refl

  wide_three :
      0x800 ≤ cp
      → cp < 0x10000
      → write_wide (0xe0 + cp / 4096) ((0x80 + cp / 64 % 64) ∷ (0x80 + cp % 64) ∷ s)
        ≡ wide_piece cp 2
  unfolding write_wide lead continue_code_point
  wide_three h k =
      let e : ((0xe0 + cp / 4096) % 16 * 64 + (0x80 + cp / 64 % 64) % 64) * 64
            + (0x80 + cp % 64) % 64
          ≡ cp =
        omega arith in
      let l : lead (0xe0 + cp / 4096) ≡ some ((0xe0 + cp / 4096) % 16, 2) = ground arith in
      let b1 : (leb 0x80 (0x80 + cp / 64 % 64) && ltb (0x80 + cp / 64 % 64) 0xc0) ≡ true =
        ground arith in
      let b2 : (leb 0x80 (0x80 + cp % 64) && ltb (0x80 + cp % 64) 0xc0) ≡ true = ground arith in
      let long : ltb (length ((0x80 + cp / 64 % 64) ∷ (0x80 + cp % 64) ∷ s)) 2 ≡ false =
        ground arith in
      rw (l, long, b1, b2, e) refl

  wide_four :
      0x10000 ≤ cp
      → cp < 0x110000
      → write_wide
          (0xf0 + cp / 262144)
          ((0x80 + cp / 4096 % 64) ∷ (0x80 + cp / 64 % 64) ∷ (0x80 + cp % 64) ∷ s)
        ≡ wide_piece cp 3
  unfolding write_wide lead continue_code_point
  wide_four h k =
      let e : (((0xf0 + cp / 262144) % 8 * 64 + (0x80 + cp / 4096 % 64) % 64) * 64
                + (0x80 + cp / 64 % 64) % 64)
              * 64
            + (0x80 + cp % 64) % 64
          ≡ cp =
        omega arith in
      let l : lead (0xf0 + cp / 262144) ≡ some ((0xf0 + cp / 262144) % 8, 3) = ground arith in
      let b1 : (leb 0x80 (0x80 + cp / 4096 % 64) && ltb (0x80 + cp / 4096 % 64) 0xc0) ≡ true =
        ground arith in
      let b2 : (leb 0x80 (0x80 + cp / 64 % 64) && ltb (0x80 + cp / 64 % 64) 0xc0) ≡ true =
        ground arith in
      let b3 : (leb 0x80 (0x80 + cp % 64) && ltb (0x80 + cp % 64) 0xc0) ≡ true = ground arith in
      let long : ltb
            (length ((0x80 + cp / 4096 % 64) ∷ (0x80 + cp / 64 % 64) ∷ (0x80 + cp % 64) ∷ s)) 3
          ≡ false =
        ground arith in
      rw (l, long, b1, b2, b3, e) refl

  -- A code point in UTF-8 is written as its escape, or as it is if it is ASCII.
  pub write_chars-utf8 :
      cp < 0x110000 → write_chars true 0 (append_utf8 cp ++ s) ≡ escaped cp ++ write_chars true 0 s
  unfolding append_utf8 escaped
  write_chars-utf8 h = elim (Bool-cases (ltb cp 0x80)) [
    | inl one ↦ rw one (write_chars-ascii cp s one)
    | inr more ↦ rw more (elim (Bool-cases (ltb cp 0x800)) [
      | inl two ↦ rw two (
          let b = 0x80 + cp % 64 in
          unfold write_chars in
          write_chars-piece true (0xc0 + cp / 64) (b ∷ s) (wide_piece cp 1)
            (piece-wide _ _ _ (ground arith) (wide_two (ground arith) (ground arith))))
      | inr more2 ↦ rw more2 (elim (Bool-cases (ltb cp 0x10000)) [
        | inl three ↦ rw three (
            unfold write_chars in
            write_chars-piece true (0xe0 + cp / 4096) ((0x80 + cp / 64 % 64) ∷ (0x80 + cp % 64) ∷ s)
              (wide_piece cp 2)
              (piece-wide _ _ _ (ground arith) (wide_three (ground arith) (ground arith))))
        | inr four ↦ rw four (
            unfold write_chars in
            write_chars-piece true (0xf0 + cp / 262144)
              ((0x80 + cp / 4096 % 64) ∷ (0x80 + cp / 64 % 64) ∷ (0x80 + cp % 64) ∷ s)
              (wide_piece cp 3) (piece-wide _ _ _ (ground arith) (wide_four (ground arith) h)))
      ])
    ])
  ]
