-- ===== src/Prelude/Texts.antt =====
-- Texts as paths: the functions of the Go package strings that the program calls on them.
use Prim.Native.Nat.{ℕ, suc}
use Prim.Native.Char.{Char, code}
use Prim.Native.String.{String, [], ◌∷◌, ◌++◌}
use mathlib.Core.Path.{◌≡◌, refl, ap, ap₂, ◌∙◌, sym}
use mathlib.Core.Logic.{inl, inr}
use mathlib.Core.Bool.{Bool, true, false, ◌&&◌}
use mathlib.Core.Option.{Option, none, some}
use mathlib.Core.List.{List}
use mathlib.Core.List
use text.Mathlib.TextEquality.{Char-path}
use text.Mathlib.TextLemmas.{nil-append, cons-append, append-nil, append_assoc}
use wash.Prelude.Tests.{◌==◌, if◌then◌else◌, Bool-cases, ==→eq, ==_refl}

pub ruleset text_laws = (nil-append, cons-append)

abbrev pub is_slash : Char → Bool
is_slash c = code c == b'/'

unfoldable pub is_empty : String → Bool
is_empty [] = true
is_empty (c ∷ s) = false

-- How many characters
unfoldable pub size : String → ℕ
size [] = 0
size (c ∷ s) = suc (size s)

-- strings.TrimRight(s, "/")
unfoldable pub trim_right : String → String
unfolding is_empty
trim_right [] = []
trim_right (c ∷ s) = let r = trim_right s in if is_slash c && is_empty r then [] else c ∷ r

-- strings.TrimLeft(s, "/")
unfoldable pub trim_left : String → String
trim_left [] = []
trim_left (c ∷ s) = if is_slash c then trim_left s else c ∷ s

-- strings.Trim(s, "/")
unfoldable pub trim : String → String
unfolding trim_left trim_right
trim s = trim_right (trim_left s)

-- strings.Split(s, "/"): the first segment and the others
unfoldable pub split : String → String × List String
split [] = ([], List.[])
split (c ∷ s) = let r = split s in if is_slash c then ([], List.◌∷◌ r.0 r.1) else (c ∷ r.0, r.1)

-- strings.Join(segments, "/")
unfoldable pub join : String → List String → String
join x List.[] = x
join x (List.◌∷◌ y ys) = x ++ ("/" ++ join y ys)

unfoldable pub join_all : List String → String
unfolding join
join_all List.[] = ""
join_all (List.◌∷◌ x xs) = join x xs

-- The segments but the last, and the last
unfoldable pub split_last : String → List String → List String × String
split_last x List.[] = (List.[], x)
split_last x (List.◌∷◌ y ys) = (List.◌∷◌ x (split_last y ys).0, (split_last y ys).1)

-- strings.TrimPrefix, and `none` where the text does not begin so
unfoldable pub strip_prefix : String → String → Option String
strip_prefix [] s = some s
strip_prefix (p ∷ ps) [] = none
strip_prefix (p ∷ ps) (c ∷ s) = if code p == code c then strip_prefix ps s else none

abbrev pub NoSlash : String → Type 0
NoSlash [] = Unit {0}
NoSlash (c ∷ s) = (is_slash c ≡ false) × NoSlash s

pub split-NoSlash : (s : String) → NoSlash s → split s ≡ (s, List.[])
unfolding split
split-NoSlash [] h = refl
split-NoSlash (c ∷ s) (h, hs) = rw (h, split-NoSlash s hs) refl

-- A last segment without a slash
pub split-append :
    (s t : String)
    → NoSlash t
    → split (s ++ ("/" ++ t)) ≡ ((split s).0, List.◌++◌ (split s).1 (List.◌∷◌ t List.[]))
unfolding split
split-append [] t h =
    rw (nil-append ("/" ++ t), cons-append) (rw (nil-append t, split-NoSlash t h) refl)
split-append (c ∷ s) t h =
    rw (cons-append c s ("/" ++ t), split-append s t h)
      (elim (Bool-cases (is_slash c)) [ inl e ↦ rw e refl | inr e ↦ rw e refl ])

pub split_last-append :
    (x : String) (xs : List String) (t : String)
    → split_last x (List.◌++◌ xs (List.◌∷◌ t List.[])) ≡ (List.◌∷◌ x xs, t)
unfolding split_last
split_last-append x List.[] t = refl
split_last-append x (List.◌∷◌ y ys) t = rw (split_last-append y ys t) refl

pub slash_char : (c : Char) → is_slash c ≡ true → c ≡ "/"
slash_char c h = Char-path c "/" (==→eq (code c) b'/' h)

pub join-split : (s : String) → join (split s).0 (split s).1 ≡ s
unfolding join split
join-split [] = refl
join-split (c ∷ s) = elim (Bool-cases (is_slash c)) [
  | inl e ↦ rw e (
      rw (nil-append, join-split s, cons-append, nil-append)
        (ap (λ d. d ∷ s) (sym (slash_char c e))))
  | inr e ↦ rw e (join-cons c (split s).0 (split s).1 ∙ ap (λ u. c ∷ u) (join-split s))
]
  where
    join-cons : (c : Char) (x : String) (xs : List String) → join (c ∷ x) xs ≡ c ∷ join x xs
    join-cons c x List.[] = refl
    join-cons c x (List.◌∷◌ y ys) = cons-append c x ("/" ++ join y ys)

pub join-split_last :
    (x y : String) (ys : List String)
    → join x (List.◌∷◌ y ys)
      ≡ join_all (split_last x (List.◌∷◌ y ys)).0 ++ ("/" ++ (split_last x (List.◌∷◌ y ys)).1)
unfolding join join_all split_last
join-split_last x y List.[] = refl
join-split_last x y (List.◌∷◌ z zs) =
    rw (join-split_last y z zs) (sym (append_assoc x _ _ ∙ ap (λ u. x ++ u) (append_assoc "/" _ _)))

pub trim_right-NoSlash : (s : String) → NoSlash s → trim_right s ≡ s
unfolding trim_right
trim_right-NoSlash [] h = refl
trim_right-NoSlash (c ∷ s) (h, hs) = rw (h, trim_right-NoSlash s hs) refl

pub strip_prefix-append : (p s : String) → strip_prefix p (p ++ s) ≡ some s
unfolding strip_prefix
strip_prefix-append [] s = ap some (nil-append s)
strip_prefix-append (c ∷ p) s = rw (cons-append c p s, ==_refl (code c)) (strip_prefix-append p s)

pub strip_prefix-some : (p s r : String) → strip_prefix p s ≡ some r → s ≡ p ++ r
unfolding strip_prefix
strip_prefix-some [] s r h = (cc) ∙ sym (nil-append r)
strip_prefix-some (c ∷ p) [] r h = absurd (cc)
strip_prefix-some (c ∷ p) (d ∷ s) r h = elim (Bool-cases (code c == code d)) [
  | inl e ↦
      let same = Char-path c d (==→eq (code c) (code d) e) in
      let rest = strip_prefix-some p s r (rw e at h) in
      rw (cons-append c p r) (ap₂ (λ x y. x ∷ y) (sym same) rest)
  | inr e ↦ let no = rw e at h in absurd (cc)
]
