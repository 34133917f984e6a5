-- ===== src/Fuse/File.antt =====
-- fuse/file.go: the state of a file node and its handlers. What a handler is told by the rest of the
-- program, the entry found again, the result of plugin.Read, plugin.Size and plugin.Write, is an
-- argument. Each handler is one step: the mutex makes it one, but for Release, which calls
-- releaseWriter without holding it and is taken alone. Sizes and offsets are below 2^63.
pub mod Handlers
pub mod Overwrite
pub mod Views
pub mod Writing
pub mod Flushing
pub mod Session
pub mod Faults
mod Examples
use wash.Prelude.{
  ℕ, zero, suc, ◌-◌, Bool, true, false, negate, ◌&&◌, ◌||◌, Option, none, some, List, [], ◌∷◌, ◌++◌,
  ltb, ◌==◌, if◌then◌else◌, length, replicate,
}
use wash.Plugin.Content.{ReadResult}

-- What the node reads of its entry: the size attribute and the supported actions.
pub record Entry : Type 0 where
  pub size_attr : Option ℕ
  pub readable : Bool
  pub streamable : Bool
  pub writable : Bool

pub record File : Type 0 where
  pub entry : Entry
  pub writers : List ℕ
  pub contents : List ℕ
  pub read_size : ℕ

-- ENOTSUP, ENOSYS, an error of the plugin that is passed on, or a panic.
pub data Reply (A : Type 0) : Type 0 where
  ok : A → Reply A
  not_supported no_such_call failed panics : Reply A

-- newFile
abbrev pub new_file : Entry → File
new_file e = record { entry = e; writers = []; contents = []; read_size = 0 }

abbrev pub has_size : Option ℕ → Bool
has_size none = false
has_size (some n) = true

abbrev pub is_file_like_entry : File → Bool
is_file_like_entry f = has_size f.entry.size_attr

abbrev pub is_empty : List ℕ → Bool
is_empty [] = true
is_empty (x ∷ xs) = false

abbrev pub use_local_content : File → Bool
use_local_content f = negate (is_empty f.writers) && is_file_like_entry f

unfoldable pub is_writer : ℕ → List ℕ → Bool
is_writer handle [] = false
is_writer handle (w ∷ ws) = handle == w || is_writer handle ws

-- f.writers[handle] = struct{}{} and delete(f.writers, handle)
unfoldable pub add_writer : ℕ → List ℕ → List ℕ
unfolding is_writer
add_writer handle ws = if is_writer handle ws then ws else handle ∷ ws

unfoldable pub remove_writer : ℕ → List ℕ → List ℕ
remove_writer handle [] = []
remove_writer handle (w ∷ ws) =
    if handle == w then remove_writer handle ws else w ∷ remove_writer handle ws

-- append(f.data, make([]byte, newLen - len(f.data))...) where newLen > len(f.data)
unfoldable pub pad_to : ℕ → List ℕ → List ℕ
pad_to n xs = if ltb (length xs) n then xs ++ replicate (n - length xs) 0 else xs

-- copy(data[offset:], bytes)
unfoldable pub overwrite : List ℕ → ℕ → List ℕ → List ℕ
overwrite [] offset bytes = []
overwrite (x ∷ xs) zero [] = x ∷ xs
overwrite (x ∷ xs) zero (b ∷ bytes) = b ∷ overwrite xs zero bytes
overwrite (x ∷ xs) (suc offset) bytes = x ∷ overwrite xs offset bytes
