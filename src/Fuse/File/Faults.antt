-- ===== src/Fuse/File/Faults.antt =====
-- Sequences of handlers of fuse/file.go that end in an error or a panic.
use wash.Prelude.{
  ℕ, ◌-◌, ◌<◌, ◌≡◌, refl, Bool, true, false, Option, some, List, [], ◌∷◌, arith, ltb, length,
}
use wash.Plugin.Content.{eof, ReadResult}
use wash.Plugin.Content.Correct.{read_error}
use wash.Fuse.File.{
  Entry, File, ok, is_empty, failed, panics, is_file_like_entry, is_writer, add_writer,
}
use wash.Fuse.File.Handlers.{
  OpenFlags, is_unsupported, refresh, open_size, open_checked, open_file, write_file, flush,
  setattr,
}
use wash.Fuse.File.Views.{Serves}
use wash.Fuse.File.Session.{is_writer-add_writer}

flush-panics :
    (plugin_read : ℕ → ℕ → ReadResult) (fails : Bool) (handle : ℕ) (f : File)
    → is_file_like_entry f ≡ true
    → is_writer handle f.writers ≡ true
    → f.read_size < length f.contents
    → (flush plugin_read fails handle f).0 ≡ panics
unfolding flush
flush-panics plugin_read fails handle f like writer longer =
    let e : ltb f.read_size (length f.contents) ≡ true = ground arith in simp (like, writer, e)

-- Setattr with a size below the length of the local content of a file-like entry leaves a state in
-- which the flush of the same handle panics, whatever the plugin does.
pub setattr-shrink_panics :
    (plugin_read : ℕ → ℕ → ReadResult) (fails : Bool) (handle size : ℕ) (f : File)
    → is_file_like_entry f ≡ true
    → size < length f.contents
    → (flush plugin_read fails handle (setattr true true handle size f).1).0 ≡ panics
unfolding setattr
setattr-shrink_panics plugin_read fails handle size f like small =
    let g : File = record f { writers = add_writer handle f.writers; read_size = size } in
    simp like
      (flush-panics plugin_read fails handle g like (is_writer-add_writer handle f.writers) small)

has_writer-not_empty : (handle : ℕ) (ws : List ℕ) → is_writer handle ws ≡ true → is_empty ws ≡ false
unfolding is_writer
has_writer-not_empty handle [] e = absurd (cc)
has_writer-not_empty handle (w ∷ ws) e = refl

open_file-local :
    (size : ℕ) (flags : OpenFlags) (found : Option Entry) (f : File)
    → is_empty f.writers ≡ false
    → is_file_like_entry f ≡ true
    → is_unsupported flags f.entry ≡ false
    → open_file flags found (some size) f ≡ (ok false, record f { read_size = size })
unfolding open_file refresh open_checked open_size
open_file-local size flags found f local like mode =
    simp (local, like, mode, open_file, refresh, open_checked, open_size) refl

-- While a handle writes to a file-like entry whose local content is longer than what plugin.Size
-- says, opening the node once more in a mode that it supports succeeds, and leaves a state in which
-- the flush of that handle panics.
pub open_file-flush_panics :
    (plugin_read : ℕ → ℕ → ReadResult) (fails : Bool) (handle size : ℕ) (flags : OpenFlags)
    (found : Option Entry) (f : File)
    → is_file_like_entry f ≡ true
    → is_unsupported flags f.entry ≡ false
    → is_writer handle f.writers ≡ true
    → size < length f.contents
    → ((open_file flags found (some size) f).0 ≡ ok false)
      × ((flush plugin_read fails handle (open_file flags found (some size) f).1).0 ≡ panics)
open_file-flush_panics plugin_read fails handle size flags found f like mode writer small =
    let opened =
      open_file-local size flags found f (has_writer-not_empty handle f.writers writer) like mode in
    rw opened (
      refl,
      flush-panics plugin_read fails handle (record f { read_size = size }) like writer small,
    )

-- Write of a readable file-like entry at an offset past both its local content and the content of
-- the plugin fails with the io.EOF of the load, and leaves the content as it was.
pub write_file-past_end :
    (plugin_read : ℕ → ℕ → ReadResult) (content : List ℕ) (handle offset : ℕ) (bytes : List ℕ)
    (f : File)
    → Serves plugin_read content
    → is_file_like_entry f ≡ true
    → f.entry.readable ≡ true
    → length f.contents < offset
    → length content < offset
    → write_file plugin_read handle offset bytes f
      ≡ (failed, record f { writers = add_writer handle f.writers })
unfolding write_file
write_file-past_end plugin_read content handle offset bytes f serves like readable gap past =
    let size = offset - length f.contents in
    let e : ltb (length f.contents) offset ≡ true = ground arith in
    let ends : read_error content size (length f.contents) ≡ some eof = ground arith in
    simp (like, e, readable, serves size (length f.contents), ends) refl
