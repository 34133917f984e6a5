-- ===== src/Fuse/File/Overwrite.antt =====
-- Bytes under `overwrite` and `pad_to` (Write of fuse/file.go).
use wash.Prelude.{
  ℕ, zero, suc, ◌+◌, ◌-◌, ◌≤◌, ◌≡◌, refl, sym, ap, ◌∙◌, inl, inr, ◌&&◌, List, [], ◌∷◌, arith, ltb,
  leb, if◌then◌else◌, Bool-cases, length, length-append, max, get_or, replicate, length-replicate,
  get_or-replicate, get_or-beyond, get_or-append_left, get_or-append_right,
}
use wash.Fuse.File.{pad_to, overwrite}

-- Byte `i` once `bytes` are written at `offset` over a file whose bytes are `old`.
abbrev pub overlay : ℕ → List ℕ → (ℕ → ℕ) → ℕ → ℕ
overlay offset bytes old i =
    if leb offset i && ltb i (offset + length bytes) then get_or bytes (i - offset) 0 else old i

pub length-overwrite :
    (xs : List ℕ) (offset : ℕ) (bytes : List ℕ) → length (overwrite xs offset bytes) ≡ length xs
unfolding overwrite
length-overwrite [] offset bytes = refl
length-overwrite (x ∷ xs) zero [] = refl
length-overwrite (x ∷ xs) zero (b ∷ bytes) = ap suc (length-overwrite xs zero bytes)
length-overwrite (x ∷ xs) (suc offset) bytes = ap suc (length-overwrite xs offset bytes)

pub length-pad_to : (n : ℕ) (xs : List ℕ) → length (pad_to n xs) ≡ max n (length xs)
unfolding pad_to
length-pad_to n xs = ground (
  arith,
  length-append xs (replicate {A = ℕ} (n - length xs) 0),
  length-replicate {A = ℕ} (n - length xs) 0,
)

pub get_or-pad_to : (n : ℕ) (xs : List ℕ) (i : ℕ) → get_or (pad_to n xs) i 0 ≡ get_or xs i 0
unfolding pad_to
get_or-pad_to n xs i = elim (Bool-cases (ltb (length xs) n)) [
  | inr e ↦ rw e
  | inl e ↦ rw e (elim (Bool-cases (ltb i (length xs))) [
    | inl l ↦ get_or-append_left xs _ i 0 (ground arith)
    | inr g ↦
        get_or-append_right xs _ i 0 (ground arith)
        ∙ get_or-replicate (n - length xs) (i - length xs) 0
        ∙ sym (get_or-beyond xs i 0 (ground arith))
  ])
]

pub get_or-overwrite :
    (xs : List ℕ) (offset : ℕ) (bytes : List ℕ) (i : ℕ)
    → offset + length bytes ≤ length xs
    → get_or (overwrite xs offset bytes) i 0 ≡ overlay offset bytes (λ j. get_or xs j 0) i
unfolding overwrite
get_or-overwrite [] offset bytes i h = ground arith
get_or-overwrite (x ∷ xs) zero [] i h = ground arith
get_or-overwrite (x ∷ xs) zero (b ∷ bytes) zero h = ground arith
get_or-overwrite (x ∷ xs) zero (b ∷ bytes) (suc i) h =
    get_or-overwrite xs zero bytes i (omega arith) ∙ ground arith
get_or-overwrite (x ∷ xs) (suc offset) bytes zero h = ground arith
get_or-overwrite (x ∷ xs) (suc offset) bytes (suc i) h =
    get_or-overwrite xs offset bytes i (omega arith) ∙ ground arith
