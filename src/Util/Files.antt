-- ===== src/Util/Files.antt =====
-- `readWholeFile` and `writeFileAtomically` (daemon/src/util.cpp), over what the system calls answer.
use plasma_network_health.Prelude.{
  ℕ, zero, suc, ◌≡◌, refl, sym, ap, ◌∙◌, inl, inr, Bool-cases, Bool, true, false, not, ◌&&◌, [],
  ◌∷◌, ◌++◌, append_assoc, append-nil, Option, none, some, Bytes, ltb, if◌then◌else◌, length, take,
  drop,
}

-- What read(2) answers, call after call: bytes, EINTR, the end of the file or another error.
pub data ReadCalls : Type 0 where
  got : Bytes → ReadCalls → ReadCalls
  read_interrupted : ReadCalls → ReadCalls
  end_of_file : ReadCalls
  read_failed : ReadCalls

-- The loop of readWholeFile, with `out` so far.
unfoldable pub read_loop : ℕ → ReadCalls → Bytes → Option Bytes
read_loop limit (got bytes more) out =
    let rest = read_loop limit more (out ++ bytes) in
    if ltb (length out) limit then rest else some out
read_loop limit (read_interrupted more) out =
    let rest = read_loop limit more out in if ltb (length out) limit then rest else some out
read_loop limit end_of_file out = some out
read_loop limit read_failed out = if ltb (length out) limit then none else some out

-- `opens` is whether open(2) succeeds.
unfoldable pub read_whole_file : ℕ → Bool → ReadCalls → Option Bytes
unfolding read_loop
read_whole_file limit false calls = none
read_whole_file limit true calls = read_loop limit calls []

-- What write(2) answers: how many bytes it took, EINTR, or another error.
pub data WriteCalls : Type 0 where
  took : ℕ → WriteCalls → WriteCalls
  write_interrupted : WriteCalls → WriteCalls
  write_failed : WriteCalls

-- The loop over what is left to write: what the temporary file holds, and `ok`.
unfoldable pub write_loop : WriteCalls → Bytes → Bytes → Bytes × Bool
write_loop calls [] held = (held, true)
write_loop write_failed (c ∷ rest) held = (held, false)
write_loop (write_interrupted more) (c ∷ rest) held = write_loop more (c ∷ rest) held
write_loop (took n more) (c ∷ rest) held =
    write_loop more (drop n (c ∷ rest)) (held ++ take n (c ∷ rest))

-- What becomes of the files: the contents that the path gets, if it gets any, and whether the
-- temporary file is unlinked.
pub record Written : Type 0 where
  pub replaced : Option Bytes
  pub unlinked : Bool
  pub ok : Bool

-- `makes`, `chmods` and `renames` are whether mkstemp, fchmod and rename succeed.
unfoldable pub write_file_atomically : Bool → WriteCalls → Bool → Bool → Bytes → Written
unfolding write_loop
write_file_atomically false calls chmods renames contents = record {
  replaced = none;
  unlinked = false;
  ok = false;
}
write_file_atomically true calls chmods renames contents =
    let (held, whole) = write_loop calls contents [] in
    let ok = whole && chmods && renames in
    record { replaced = if ok then some held else none; unlinked = not ok; ok = ok }

take-drop : (n : ℕ) (xs : Bytes) → take n xs ++ drop n xs ≡ xs
take-drop zero xs = refl
take-drop (suc n) [] = refl
take-drop (suc n) (x ∷ xs) = ap (λ (ys : Bytes). x ∷ ys) (take-drop n xs)

write_loop-whole :
    (calls : WriteCalls) (rest held : Bytes)
    → (write_loop calls rest held).1 ≡ true
    → (write_loop calls rest held).0 ≡ held ++ rest
unfolding write_loop
write_loop-whole calls [] held h = sym (append-nil held)
write_loop-whole write_failed (c ∷ rest) held h = cc
write_loop-whole (write_interrupted more) (c ∷ rest) held h =
    write_loop-whole more (c ∷ rest) held h
write_loop-whole (took n more) (c ∷ rest) held h =
    write_loop-whole more (drop n (c ∷ rest)) (held ++ take n (c ∷ rest)) h
    ∙ append_assoc held (take n (c ∷ rest)) (drop n (c ∷ rest))
    ∙ ap (λ (xs : Bytes). held ++ xs) (take-drop n (c ∷ rest))

-- However write(2) splits the text and wherever a call fails, writeFileAtomically gives the path the
-- whole text if it returns true, and leaves the path as it was if it returns false.
pub write_file_atomically-replaced :
    (makes : Bool) (calls : WriteCalls) (chmods renames : Bool) (contents : Bytes)
    → (write_file_atomically makes calls chmods renames contents).replaced ≡ (
        if (write_file_atomically makes calls chmods renames contents).ok
        then some contents
        else none)
unfolding write_file_atomically
write_file_atomically-replaced false calls chmods renames contents = refl
write_file_atomically-replaced true calls chmods renames contents =
    elim (Bool-cases (write_loop calls contents []).1) [
      | inl whole ↦
          let same : (write_loop calls contents []).0 ≡ contents =
            write_loop-whole calls contents [] whole in
          rw same refl
      | inr part ↦ rw part refl
    ]
