-- ===== src/Plugin/Segments.antt =====
-- Paths by their segments: what splitID of plugin/cache.go leaves is the parent, and the ancestors of
-- a path are its parent and the ancestors of that.
use wash.Prelude.{
  ◌<◌, String, ◌≡◌, refl, sym, ap, ◌∙◌, ◌⊎◌, inl, inr, true, false, arith, Bool-cases,
}
use wash.Prelude.Texts.{
  is_slash, is_empty, size, NoSlash, join_all, split_last, split-NoSlash, slash_char,
}
use wash.Plugin.Keys.{split_id}
use wash.Plugin.Ids.{split_id-append, size-append, size-slash}
use Prim.Native.String.{◌++◌ as append_string}
use text.Mathlib.TextLemmas.{nil-append, cons-append, append_assoc as append_text_assoc}

-- A proper ancestor by the segments
abbrev pub IsAncestor : String → String → Type 0
IsAncestor r path = (rest : String) × (path ≡ append_string r (append_string "/" rest))

-- All before the last slash, and nothing without a slash
abbrev pub IsParent : String → String → Type 0
IsParent r path =
    ((rest : String) × NoSlash rest × (path ≡ append_string r (append_string "/" rest)))
    ⊎ (NoSlash path × (r ≡ ""))

pub size-IsAncestor : (a path : String) → IsAncestor a path → size a < size path
size-IsAncestor a path (rest, e) =
    omega (arith, ap size e, size-append a (append_string "/" rest), size-slash rest)

pub no-ancestor : (a path : String) → is_empty path ≡ true → IsAncestor a path → ⊥
unfolding is_empty
no-ancestor a String.[] e above = absurd (unfold size in omega (arith, size-IsAncestor a "" above))
no-ancestor a (String.◌∷◌ c s) e above = absurd (cc)

last_segment :
    (s : String)
    → NoSlash s ⊎ ((b t : String) × NoSlash t × (s ≡ append_string b (append_string "/" t)))
last_segment String.[] = inl tt
last_segment (String.◌∷◌ c s) = elim (last_segment s) [
  | inr (b, t, n, e) ↦ inr (
    String.◌∷◌ c b,
    t,
    n,
    ap (λ u. String.◌∷◌ c u) e ∙ sym (cons-append c b (append_string "/" t)),
  )
  | inl n ↦ elim (Bool-cases (is_slash c)) [
    | inr h ↦ inl (h, n)
    | inl h ↦ inr (
      "",
      s,
      n,
      ap (λ d. String.◌∷◌ d s) (slash_char c h)
          ∙ sym (
              nil-append (append_string "/" s)
              ∙ cons-append "/" "" s
              ∙ ap (λ u. String.◌∷◌ "/" u) (nil-append s)),
    )
  ]
]

split_id-NoSlash : (path : String) → NoSlash path → (split_id path).0 ≡ ""
unfolding split_id split_last join_all
split_id-NoSlash path n = rw (split-NoSlash path n) refl

-- A split into all before the last slash and the rest
split_id-last :
    (path b t : String)
    → NoSlash t
    → path ≡ append_string b (append_string "/" t)
    → (split_id path).0 ≡ b
split_id-last path b t n e = ap (λ u. (split_id u).0) e ∙ ap (λ i. i.0) (split_id-append b t n)

pub IsParent-split_id : (path : String) → IsParent (split_id path).0 path
IsParent-split_id path = elim (last_segment path) [
  | inl n ↦ inr (n, split_id-NoSlash path n)
  | inr (b, t, n, e) ↦
      inl (
        t,
        n,
        e ∙ ap (λ u. append_string u (append_string "/" t)) (sym (split_id-last path b t n e)),
      )
]

join_ancestor :
    (a b t : String)
    → append_string a (append_string "/" (append_string b (append_string "/" t)))
      ≡ append_string (append_string a (append_string "/" b)) (append_string "/" t)
join_ancestor a b t = sym (
    append_text_assoc a (append_string "/" b) (append_string "/" t)
    ∙ ap (λ u. append_string a u) (append_text_assoc "/" b (append_string "/" t)))

-- An ancestor is the parent or an ancestor of it.
pub IsAncestor-parent :
    (a path : String) → IsAncestor a path → (a ≡ (split_id path).0) ⊎ IsAncestor a (split_id path).0
IsAncestor-parent a path (rest, e) = elim (last_segment rest) [
  | inl n ↦ inl (sym (split_id-last path a rest n e))
  | inr (b, t, n, g) ↦
      let whole = e ∙ ap (λ u. append_string a (append_string "/" u)) g ∙ join_ancestor a b t in
      inr (b, split_id-last path (append_string a (append_string "/" b)) t n whole)
]

-- The parent, if it is not empty, and its ancestors are ancestors.
pub parent-IsAncestor :
    (a path : String)
    → is_empty a ≡ false
    → (a ≡ (split_id path).0) ⊎ IsAncestor a (split_id path).0
    → IsAncestor a path
parent-IsAncestor a path named at = elim (last_segment path) [
  | inl n ↦ elim at [
    | inl same ↦
        let no = rw (same ∙ split_id-NoSlash path n) at named in absurd (unfold is_empty in cc)
    | inr above ↦ absurd (
        no-ancestor a (split_id path).0 (rw (split_id-NoSlash path n) (unfold is_empty in refl))
          above)
  ]
  | inr (b, t, n, e) ↦ elim at [
    | inl same ↦ (
      t,
      e ∙ ap (λ u. append_string u (append_string "/" t)) (sym (same ∙ split_id-last path b t n e)),
    )
    | inr (rest, g) ↦ (
      append_string rest (append_string "/" t),
      e
          ∙ ap (λ u. append_string u (append_string "/" t)) (sym (split_id-last path b t n e) ∙ g)
          ∙ sym (join_ancestor a rest t),
    )
  ]
]
