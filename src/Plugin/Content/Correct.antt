-- ===== src/Plugin/Content/Correct.antt =====
-- plugin.Read (plugin/methodWrappers.go) and the bytes of the content.
use wash.Prelude.{
  ℕ, zero, suc, ◌+◌, ◌≤◌, ◌≡◌, refl, sym, ap, ap₂, ◌∙◌, inl, inr, true, false, Option, none, some,
  List, [], ◌∷◌, arith, ltb, leb, if◌then◌else◌, Bool-cases, length, take, drop, length-take,
  length-drop,
}
use wash.Plugin.Content.{IoError, eof, whole, read_whole, finish_read, last_error, read}

abbrev pub slice : List ℕ → ℕ → ℕ → List ℕ
slice content size offset = take size (drop offset content)

take-all : (n : ℕ) (xs : List ℕ) → length xs ≤ n → take n xs ≡ xs
take-all zero [] h = refl
take-all zero (x ∷ xs) h = absurd (omega arith)
take-all (suc n) [] h = refl
take-all (suc n) (x ∷ xs) h = ap (λ r. x ∷ r) (take-all n xs (omega arith))

drop-all : (n : ℕ) (xs : List ℕ) → length xs ≤ n → drop n xs ≡ []
drop-all zero [] h = refl
drop-all zero (x ∷ xs) h = absurd (omega arith)
drop-all (suc n) [] h = refl
drop-all (suc n) (x ∷ xs) h = drop-all n xs (omega arith)

-- The size attribute of an entry, if it has one, is the length of its content.
abbrev pub IsSizeOf : Option ℕ → List ℕ → Type 0
IsSizeOf none content = Unit {0}
IsSizeOf (some n) content = n ≡ length content

last_none : (e : Option IoError) → last_error none e ≡ e
last_none none = refl
last_none (some e) = refl

-- The error that Read documents: io.EOF if fewer than `size` bytes stand at the offset, or none do.
abbrev pub read_error : List ℕ → ℕ → ℕ → Option IoError
read_error content size offset =
    if leb (length content) offset
    then some eof
    else if ltb (length content) (offset + size)
    then some eof
    else none

stays_eof :
    (content : List ℕ) (size offset : ℕ)
    → last_error (some eof) (read_error content size offset) ≡ some eof
stays_eof content size offset = ground arith

slice-whole :
    (content : List ℕ) (size offset : ℕ)
    → length content ≤ offset + size
    → slice content size offset ≡ drop offset content
slice-whole content size offset h =
    take-all size (drop offset content) (omega (arith, length-drop offset content))

slice-empty :
    (content : List ℕ) (size offset : ℕ) → length content ≤ offset → slice content size offset ≡ []
slice-empty content size offset h =
    slice-whole content size offset (omega arith) ∙ drop-all offset content h

length-slice-le : (content : List ℕ) (size offset : ℕ) → length (slice content size offset) ≤ size
length-slice-le content size offset = omega (arith, length-take size (drop offset content))

read_whole_lem :
    (content : List ℕ) (size offset : ℕ)
    → read_whole content size offset
      ≡ record { bytes = slice content size offset; error = read_error content size offset }
unfolding read_whole
read_whole_lem content size offset = elim (Bool-cases (leb (length content) offset)) [
  | inl past ↦ rw (past, slice-empty content size offset (ground arith))
  | inr short ↦ elim (Bool-cases (ltb (length content) (offset + size))) [
    | inl e ↦ rw (short, e, slice-whole content size offset (ground arith))
    | inr e ↦ rw (short, e)
  ]
]

finish_read_lem :
    (content : List ℕ) (size : ℕ) (err : Option IoError) (offset : ℕ)
    → finish_read (some (whole content)) size err offset ≡ record {
      bytes = slice content size offset;
      error = last_error err (read_error content size offset);
    }
unfolding finish_read
finish_read_lem content size err offset =
    let small : ltb size (length (slice content size offset)) ≡ false =
      ground (arith, length-slice-le content size offset) in
    rw (read_whole_lem content size offset) (rw small)

-- Of an entry whose content is held whole, and whose size attribute, if set, is right, Read returns
-- the bytes from the offset on, as many as were asked for or as there are, and io.EOF exactly when
-- these are fewer than asked for or the offset is not inside the content.
pub read_lem :
    (attr_size : Option ℕ) (content : List ℕ) (size offset : ℕ)
    → IsSizeOf attr_size content
    → read attr_size (some (whole content)) size offset
      ≡ record { bytes = slice content size offset; error = read_error content size offset }
unfolding read
read_lem none content size offset s =
    finish_read_lem content size none offset
    ∙ ap (λ e. record { bytes = slice content size offset; error = e }) (last_none _)
read_lem (some n) content size offset s = elim (Bool-cases (leb n offset)) [
  | inl past ↦ rw (past, slice-empty content size offset (ground arith), past_error past)
  | inr inside ↦ elim (Bool-cases (ltb n (size + offset))) [
    | inl big ↦
        rw (inside, big)
          (finish_read_lem content n (some eof) offset
            ∙ ap₂ (λ b e. record { bytes = b; error = e })
                (slice-whole content n offset (omega arith)
                  ∙ sym (slice-whole content size offset (ground arith)))
                (stays_eof content n offset ∙ ground arith))
    | inr fits ↦
        rw (inside, fits)
          (finish_read_lem content size none offset
            ∙ ap (λ e. record { bytes = slice content size offset; error = e }) (last_none _))
  ]
]
  where
    past_error : leb n offset ≡ true → read_error content size offset ≡ some eof
    past_error past = ground arith
