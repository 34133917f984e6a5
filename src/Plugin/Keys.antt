-- ===== src/Plugin/Keys.antt =====
-- The keys of plugin/cache.go: splitID, the names of operations, and the regular expressions that
-- ClearCacheFor matches keys by.
use wash.Prelude.{
  String, Bool, true, false, ◌&&◌, ◌||◌, Option, none, some, str_eq, leb, if◌then◌else◌,
}
use wash.Prelude.Texts.{is_slash, trim, split, join_all, split_last, strip_prefix}
use Prim.Native.Char.{Char, code}
use Prim.Native.String.{◌++◌ as append_string}

-- splitID
unfoldable pub split_id : String → String × String
unfolding split join_all split_last
split_id entry_id =
    let segments = split entry_id in
    let ends = split_last segments.0 segments.1 in (join_all ends.0, ends.1)

-- opNameRegex, ^[a-zA-Z]+$
unfoldable pub is_letter : Char → Bool
is_letter c = (leb b'a' (code c) && leb (code c) b'z') || (leb b'A' (code c) && leb (code c) b'Z')

unfoldable pub is_op_name : String → Bool
unfolding is_letter
is_op_name String.[] = false
is_op_name (String.◌∷◌ c String.[]) = is_letter c
is_op_name (String.◌∷◌ c (String.◌∷◌ d s)) = is_letter c && is_op_name (String.◌∷◌ d s)

-- The regular expression of opKeyRegex: <op>::<path>, and nothing else
unfoldable pub op_key_matches : String → String → String → Bool
unfolding trim
op_key_matches op path key =
    if str_eq path "/"
    then str_eq key (append_string op "::/")
    else str_eq key (append_string op (append_string "::/" (trim path)))

-- What follows ^[a-zA-Z]+:: in a key
unfoldable pub skip_letters : Bool → String → Option String
unfolding is_letter strip_prefix
skip_letters started String.[] = none
skip_letters started (String.◌∷◌ c s) =
    let rest = skip_letters true s in
    if is_letter c then rest else if started then strip_prefix "::" (String.◌∷◌ c s) else none

-- ($|/.*)
unfoldable pub ends_or_descends : String → Bool
ends_or_descends String.[] = true
ends_or_descends (String.◌∷◌ c s) = is_slash c

unfoldable pub path_matches : String → String → Bool
unfolding strip_prefix ends_or_descends trim
path_matches path id =
    if str_eq path "/"
    then elim (strip_prefix "/" id) [ none ↦ false | some rest ↦ true ]
    else elim (strip_prefix (append_string "/" (trim path)) id) [
      | none ↦ false
      | some rest ↦ ends_or_descends rest
    ]

-- The regular expression of allOpKeysIncludingChildrenRegex
unfoldable pub all_op_keys_match : String → String → Bool
unfolding skip_letters path_matches
all_op_keys_match path key = elim (skip_letters false key) [
  | none ↦ false
  | some id ↦ path_matches path id
]
