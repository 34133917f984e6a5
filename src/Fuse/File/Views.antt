-- ===== src/Fuse/File/Views.antt =====
-- The bytes of a file-like entry while it is written (fuse/file.go).
use wash.Prelude.{
  ℕ, ◌+◌, ◌-◌, ◌≤◌, ◌<◌, ◌≡◌, sym, ap, ◌∙◌, ◌⊎◌, inl, inr, List, ◌++◌, arith, ltb, leb,
  if◌then◌else◌, Bool-cases, length, length-append, get_or, drop, length-take, get_or-append_left,
  get_or-append_right, get_or-take, get_or-drop,
}
use wash.Plugin.Content.{ReadResult}
use wash.Plugin.Content.Correct.{slice, read_error}
use wash.Fuse.File.{pad_to, overwrite}
use wash.Fuse.File.Overwrite.{
  overlay, length-overwrite, length-pad_to, get_or-pad_to, get_or-overwrite,
}

-- plugin.Read of an entry whose content is `content` (`Plugin.Content.read_lem`).
abbrev pub Serves : (ℕ → ℕ → ReadResult) → List ℕ → Type 0
Serves plugin_read content =
    (size offset : ℕ)
    → plugin_read size offset
      ≡ record { bytes = slice content size offset; error = read_error content size offset }

-- Byte `i` of the file: the local content, and past it that of the plugin.
abbrev pub byte_at : List ℕ → List ℕ → ℕ → ℕ
byte_at content local i = if ltb i (length local) then get_or local i 0 else get_or content i 0

pub byte_at-inside :
    (content local : List ℕ) (i : ℕ) → i < length local → byte_at content local i ≡ get_or local i 0
byte_at-inside content local i h = ground arith

pub byte_at-past :
    (content local : List ℕ) (i : ℕ)
    → length local ≤ i
    → byte_at content local i ≡ get_or content i 0
byte_at-past content local i h = ground arith

get_or-slice :
    (content : List ℕ) (size offset j : ℕ)
    → j < size
    → get_or (slice content size offset) j 0 ≡ get_or content (offset + j) 0
get_or-slice content size offset j h =
    get_or-take size (drop offset content) j 0 h ∙ get_or-drop offset content j 0

length-slice-le : (content : List ℕ) (size offset : ℕ) → length (slice content size offset) ≤ size
length-slice-le content size offset = omega (arith, length-take size (drop offset content))

-- Loading the bytes from the end of the local content on changes no byte.
pub byte_at-load :
    (content local : List ℕ) (size i : ℕ)
    → byte_at content (local ++ slice content size (length local)) i ≡ byte_at content local i
byte_at-load content local size i =
    let part = slice content size (length local) in
    let whole_length = length-append local part in
    elim (Bool-cases (ltb i (length local))) [
      | inl l ↦
          byte_at-inside content (local ++ part) i (ground (arith, whole_length))
          ∙ get_or-append_left local part i 0 (ground arith)
          ∙ sym (byte_at-inside content local i (ground arith))
      | inr g ↦ elim (Bool-cases (ltb i (length (local ++ part)))) [
        | inl m ↦
            byte_at-inside content (local ++ part) i (ground arith)
            ∙ get_or-append_right local part i 0 (ground arith)
            ∙ get_or-slice content size (length local) (i - length local)
                (ground (arith, whole_length, length-slice-le content size (length local)))
            ∙ ap (λ j. get_or content j 0) (ground arith)
            ∙ sym (byte_at-past content local i (ground arith))
        | inr n ↦
            byte_at-past content (local ++ part) i (ground arith)
            ∙ sym (byte_at-past content local i (ground arith))
      ]
    ]

pub overlay-cong :
    (offset : ℕ) (bytes : List ℕ) (old new : ℕ → ℕ) (i : ℕ)
    → (i < offset ⊎ offset + length bytes ≤ i → old i ≡ new i)
    → overlay offset bytes old i ≡ overlay offset bytes new i
overlay-cong offset bytes old new i h = elim (Bool-cases (leb offset i)) [
  | inr l ↦ rw l (h (inl (ground arith)))
  | inl g ↦ elim (Bool-cases (ltb i (offset + length bytes))) [
    | inl m ↦ rw (g, m)
    | inr n ↦ rw (g, n) (h (inr (ground arith)))
  ]
]

overlay-past :
    (offset : ℕ) (bytes : List ℕ) (old : ℕ → ℕ) (i : ℕ)
    → offset + length bytes ≤ i
    → overlay offset bytes old i ≡ old i
overlay-past offset bytes old i h = ground arith

-- Writing at an offset that the local content reaches lays the bytes over the file.
pub byte_at-overwrite :
    (content local : List ℕ) (offset : ℕ) (bytes : List ℕ) (i : ℕ)
    → offset ≤ length local
    → byte_at content (overwrite (pad_to (offset + length bytes) local) offset bytes) i
      ≡ overlay offset bytes (byte_at content local) i
byte_at-overwrite content local offset bytes i h =
    let padded = pad_to (offset + length bytes) local in
    let written = overwrite padded offset bytes in
    let padded_length = length-pad_to (offset + length bytes) local in
    let same_length = length-overwrite padded offset bytes in
    elim (Bool-cases (ltb i (length written))) [
      | inl l ↦
          byte_at-inside content written i (ground arith)
          ∙ get_or-overwrite padded offset bytes i (omega (arith, padded_length))
          ∙ overlay-cong offset bytes (λ j. get_or padded j 0) (byte_at content local) i
              (λ out.
                get_or-pad_to (offset + length bytes) local i
                ∙ sym (byte_at-inside content local i (ground (arith, padded_length, same_length))))
      | inr g ↦
          byte_at-past content written i (ground arith)
          ∙ sym (byte_at-past content local i (ground (arith, padded_length, same_length)))
          ∙ sym (
              overlay-past offset bytes (byte_at content local) i
                (ground (arith, padded_length, same_length)))
    ]
