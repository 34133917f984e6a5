-- ===== src/Volume/Paths.antt =====
-- The paths of volume/stat.go by their segments, the last one first.
use wash.Prelude.{
  ℕ, suc, ◌+◌, ◌≤◌, String, ◌≡◌, refl, sym, ap, ap₂, ◌∙◌, inl, inr, true, false, List, [], ◌∷◌,
  arith, Bool-cases, length,
}
use wash.Prelude.Texts.{
  is_slash, is_empty, size, split, strip_prefix, NoSlash, split-NoSlash, strip_prefix-append,
}
use wash.Plugin.Ids.{size-append, size-slash}
use wash.Volume.{
  has_slash, path_split, trim_suffix, trim_prefix, parent_of, file_of, num_path_segments,
}
use Prim.Native.String.{◌++◌ as append_string}
use text.Mathlib.TextLemmas.{nil-append, cons-append, append_assoc as text-assoc}

unfoldable pub path_of : List String → String
path_of [] = ""
path_of (s ∷ up) = append_string (path_of up) (append_string "/" s)

-- No segment is empty or has a slash.
abbrev pub IsClean : List String → Type 0
IsClean [] = Unit {0}
IsClean (s ∷ up) = (is_empty s ≡ false) × (NoSlash s) × IsClean up

has_slash-NoSlash : (s : String) → NoSlash s → has_slash s ≡ false
unfolding has_slash
has_slash-NoSlash String.[] h = refl
has_slash-NoSlash (String.◌∷◌ c s) (h, hs) = rw h (has_slash-NoSlash s hs)

has_slash-append : (s t : String) → has_slash (append_string s (append_string "/" t)) ≡ true
unfolding has_slash
has_slash-append String.[] t = rw (nil-append (append_string "/" t), cons-append) refl
has_slash-append (String.◌∷◌ c s) t =
    rw (cons-append c s (append_string "/" t), has_slash-append s t)
      (elim (Bool-cases (is_slash c)) [ inl e ↦ rw e refl | inr e ↦ rw e refl ])

path_split-append :
    (s t : String)
    → NoSlash t
    → path_split (append_string s (append_string "/" t)) ≡ (append_string s "/", t)
unfolding path_split
path_split-append String.[] t h =
    rw (nil-append (append_string "/" t), cons-append, nil-append t, has_slash-NoSlash t h) refl
path_split-append (String.◌∷◌ c s) t h =
    rw (cons-append c s (append_string "/" t), has_slash-append s t, path_split-append s t h)
      (rw (cons-append c s "/") refl)

trim_suffix-append : (s : String) → trim_suffix (append_string s "/") ≡ s
unfolding trim_suffix
trim_suffix-append String.[] = refl
trim_suffix-append (String.◌∷◌ c String.[]) = rw (cons-append) refl
trim_suffix-append (String.◌∷◌ c (String.◌∷◌ d s)) =
    rw (cons-append c (String.◌∷◌ d s) "/", cons-append d s "/")
      (ap (λ u. String.◌∷◌ c u)
        (ap trim_suffix (sym (cons-append d s "/")) ∙ trim_suffix-append (String.◌∷◌ d s)))

pub parent_of-path_of :
    (s : String) (up : List String) → NoSlash s → parent_of (path_of (s ∷ up)) ≡ path_of up
unfolding path_of
parent_of-path_of s up h = rw (path_split-append (path_of up) s h) (trim_suffix-append (path_of up))

pub file_of-path_of : (s : String) (up : List String) → NoSlash s → file_of (path_of (s ∷ up)) ≡ s
unfolding path_of
file_of-path_of s up h = ap (λ r. r.1) (path_split-append (path_of up) s h)

is_empty-append : (u v : String) → is_empty v ≡ false → is_empty (append_string u v) ≡ false
unfolding is_empty
is_empty-append String.[] v h = rw (nil-append v) h
is_empty-append (String.◌∷◌ c u) v h = rw (cons-append c u v) refl

is_empty-slash : (s : String) → is_empty (append_string "/" s) ≡ false
unfolding is_empty
is_empty-slash s = rw (cons-append) refl

is_empty-path_of : (s : String) (up : List String) → is_empty (path_of (s ∷ up)) ≡ false
unfolding path_of
is_empty-path_of s up = is_empty-append (path_of up) (append_string "/" s) (is_empty-slash s)

is_empty-root : is_empty (path_of []) ≡ true
unfolding path_of is_empty
is_empty-root = refl

-- A path has its segments from nowhere else.
pub path_of-injective : (p q : List String) → IsClean p → IsClean q → path_of p ≡ path_of q → p ≡ q
path_of-injective [] [] hp hq e = refl
path_of-injective [] (s ∷ up) hp hq e =
    absurd (cc (ap is_empty e, is_empty-path_of s up, is_empty-root))
path_of-injective (s ∷ up) [] hp hq e =
    absurd (cc (ap is_empty e, is_empty-path_of s up, is_empty-root))
path_of-injective (s ∷ up) (t ∷ vp) (_, hs, hu) (_, ht, hv) e =
    ap₂ (λ x xs. x ∷ xs) (sym (file_of-path_of s up hs) ∙ ap file_of e ∙ file_of-path_of t vp ht)
      (path_of-injective up vp hu hv
        (sym (parent_of-path_of s up hs) ∙ ap parent_of e ∙ parent_of-path_of t vp ht))

slashes : String → ℕ
slashes s = length (split s).1

slashes-append : (s t : String) → slashes (append_string s t) ≡ slashes s + slashes t
unfolding slashes split
slashes-append String.[] t = rw (nil-append t) (omega arith)
slashes-append (String.◌∷◌ c s) t = rw (cons-append c s t) (elim (Bool-cases (is_slash c)) [
  | inl e ↦ rw e (ap suc (slashes-append s t) ∙ omega arith)
  | inr e ↦ rw e (slashes-append s t)
])

slashes-root : slashes "/" ≡ 1
unfolding slashes split
slashes-root = refl

slashes-slash : (s : String) → NoSlash s → slashes (append_string "/" s) ≡ 1
unfolding slashes split
slashes-slash s h = rw (cons-append, nil-append s, split-NoSlash s h) refl

slashes-path_of : (q : List String) → IsClean q → slashes (path_of q) ≡ length q
unfolding path_of
slashes-path_of [] h = unfold slashes split in refl
slashes-path_of (s ∷ up) (_, hs, hu) = omega (
  arith,
  slashes-append (path_of up) (append_string "/" s),
  slashes-path_of up hu,
  slashes-slash s hs,
)

begins :
    (s : String) (up : List String)
    → IsClean (s ∷ up)
    → (r : String) × (path_of (s ∷ up) ≡ append_string "/" r) × (is_empty r ≡ false)
unfolding path_of
begins s [] (h, _, _) = (s, nil-append (append_string "/" s), h)
begins s (t ∷ up) (h, _, hu) =
    let (r, e, k) = begins t up hu in
    (
      append_string r (append_string "/" s),
      ap (λ u. append_string u (append_string "/" s)) e ∙ text-assoc "/" r (append_string "/" s),
      is_empty-append r (append_string "/" s) (is_empty-slash s),
    )

pub trim_prefix-append : (p r : String) → trim_prefix p (append_string p r) ≡ r
unfolding trim_prefix
trim_prefix-append p r = rw (trim_prefix, strip_prefix-append p r) refl

num_path_segments-slash :
    (r : String) → is_empty r ≡ false → num_path_segments (append_string "/" r) ≡ suc (slashes r)
unfolding slashes num_path_segments split
num_path_segments-slash r h = rw (num_path_segments, trim_prefix-append "/" r, h) refl

pub num_path_segments-path_of :
    (q : List String) → IsClean q → num_path_segments (path_of q) ≡ length q
num_path_segments-path_of [] h =
    unfold path_of num_path_segments trim_prefix strip_prefix is_empty in refl
num_path_segments-path_of (s ∷ up) h =
    let (r, e, k) = begins s up h in
    ap num_path_segments e
    ∙ num_path_segments-slash r k
    ∙ omega (arith, slashes-append "/" r, slashes-root, ap slashes e, slashes-path_of (s ∷ up) h)

pub size-path_of : (q : List String) → length q ≤ size (path_of q)
unfolding path_of
size-path_of [] = unfold size in omega arith
size-path_of (s ∷ up) =
    omega (arith, size-path_of up, size-append (path_of up) (append_string "/" s), size-slash s)
