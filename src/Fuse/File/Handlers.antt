-- ===== src/Fuse/File/Handlers.antt =====
-- The handlers of fuse/file.go. Each returns its reply and the new state of the node.
use wash.Prelude.{
  ℕ, ◌+◌, ◌-◌, Bool, true, false, negate, ◌&&◌, ◌||◌, Option, none, some, List, [], ◌++◌, ltb,
  if◌then◌else◌, length, min, take,
}
use wash.Plugin.Content.{IoError, eof, other, ReadResult}
use wash.Fuse.File.{
  Entry, File, Reply, ok, not_supported, no_such_call, failed, panics, is_file_like_entry,
  use_local_content, is_empty, is_writer, add_writer, remove_writer, pad_to, overwrite,
}

-- `if !f.useLocalContent() { f.refind }`; `none` is an error of refind
unfoldable pub refresh : Option Entry → File → Option File
refresh found f =
    if use_local_content f
    then some f
    else elim found [ some e ↦ some (record f { entry = e }) | none ↦ none ]

-- The permission bits of defaultMode: 0220 if writable, 0440 if it can be read or streamed.
unfoldable pub default_mode : Entry → ℕ
default_mode e =
    (if e.writable then 0o220 else 0) + (if e.readable || e.streamable then 0o440 else 0)

abbrev pub size_or_zero : Option ℕ → ℕ
size_or_zero none = 0
size_or_zero (some n) = n

-- The size that fillAttr reports.
unfoldable pub reported_size : File → ℕ
reported_size f =
    if use_local_content f || negate (is_file_like_entry f)
    then f.read_size
    else size_or_zero f.entry.size_attr

-- Attr, with the size that it reports
unfoldable pub attr : Option Entry → File → Reply ℕ × File
unfolding refresh reported_size
attr found f = elim (refresh found f) [ some g ↦ (ok (reported_size g), g) | none ↦ (failed, f) ]

pub data OpenFlags : Type 0 where
  read_only write_only read_write : OpenFlags

-- The switch of Open: the access mode is not supported.
unfoldable pub is_unsupported : OpenFlags → Entry → Bool
is_unsupported read_only e = negate e.readable
is_unsupported write_only e = negate e.writable
is_unsupported read_write e = negate e.readable || negate e.writable

abbrev pub is_read_only : OpenFlags → Bool
is_read_only read_only = true
is_read_only flags = false

abbrev pub is_read_write : OpenFlags → Bool
is_read_write read_write = true
is_read_write flags = false

-- The end of Open, with the result of plugin.Size: whether direct I/O is used.
unfoldable pub open_size : OpenFlags → Option ℕ → File → Reply Bool × File
open_size flags size f =
    if is_file_like_entry f || is_read_only flags
    then elim size [
      | some n ↦ (ok (negate (is_file_like_entry f)), record f { read_size = n })
      | none ↦ (failed, f)
    ]
    else (ok (negate (is_file_like_entry f)), f)

unfoldable pub open_checked : OpenFlags → Option ℕ → File → Reply Bool × File
unfolding is_unsupported open_size
open_checked flags size f =
    if is_unsupported flags f.entry
    then (not_supported, f)
    else if negate (is_file_like_entry f) && is_read_write flags
    then (not_supported, f)
    else open_size flags size f

unfoldable pub open_file : OpenFlags → Option Entry → Option ℕ → File → Reply Bool × File
unfolding refresh open_checked
open_file flags found size f = elim (refresh found f) [
  | some g ↦ open_checked flags size g
  | none ↦ (failed, f)
]

-- releaseWriter: the last writer drops the local content. (The plugin's cache is cleared too.)
unfoldable pub release_writer : ℕ → File → File
release_writer handle f =
    if is_writer handle f.writers
    then (let ws = remove_writer handle f.writers in
        if is_empty ws then record f { writers = ws; contents = [] } else record f { writers = ws })
    else f

-- `if err != nil && err != io.EOF { return err }`
abbrev pub tolerate_error : List ℕ → Option IoError → Reply (List ℕ)
tolerate_error bytes none = ok bytes
tolerate_error bytes (some eof) = ok bytes
tolerate_error bytes (some other) = failed

abbrev pub tolerate_eof : ReadResult → Reply (List ℕ)
tolerate_eof r = tolerate_error r.bytes r.error

-- Read: from the local content by fuseutil.HandleRead (`handle_read`), else from plugin.Read.
module _ (handle_read : List ℕ → ℕ → ℕ → List ℕ) (plugin_read : ℕ → ℕ → ReadResult) where
  unfoldable pub read_file : ℕ → ℕ → File → Reply (List ℕ) × File
  read_file size offset f =
      if use_local_content f
      then (ok (handle_read f.contents size offset), f)
      else (tolerate_eof (plugin_read size offset), f)

-- What load gives: ENOTSUP of an entry that cannot be read, or the result of plugin.Read. Its
-- callers have made sure of a file-like entry.
pub data Load : Type 0 where
  unreadable : Load
  loaded : ReadResult → Load

unfoldable pub load : (ℕ → ℕ → ReadResult) → File → ℕ → ℕ → Load
load plugin_read f start end =
    if f.entry.readable then loaded (plugin_read (end - start) start) else unreadable

-- The rest of Write, once the bytes before the offset are there.
unfoldable pub write_at : ℕ → List ℕ → File → Reply ℕ × File
write_at offset bytes f =
    let new_len = offset + length bytes in
    let padded = pad_to new_len f.contents in
    (
      ok (min (length bytes) (length padded - offset)),
      record f {
        contents = overwrite padded offset bytes;
        read_size =
            if is_file_like_entry f && ltb f.read_size new_len then new_len else f.read_size;
      },
    )

-- Write fails on every error of load, io.EOF among them.
unfoldable pub write_loaded : Load → ℕ → List ℕ → File → Reply ℕ × File
write_loaded unreadable offset bytes f = (not_supported, f)
write_loaded (loaded r) offset bytes f = elim r.error [
  | some e ↦ (failed, f)
  | none ↦ write_at offset bytes (record f { contents = f.contents ++ r.bytes })
]

unfoldable pub write_file : (ℕ → ℕ → ReadResult) → ℕ → ℕ → List ℕ → File → Reply ℕ × File
unfolding write_loaded load
write_file plugin_read handle offset bytes f =
    let g = record f { writers = add_writer handle f.writers } in
    if is_file_like_entry g && ltb (length g.contents) offset
    then write_loaded (load plugin_read g (length g.contents) offset) offset bytes g
    else write_at offset bytes g

-- The reply of Flush, the new state, and what plugin.Write was given, if it was called.
abbrev pub Flushed : Type 0
Flushed = Reply (Unit {0}) × File × Option (List ℕ)

-- The call of plugin.Write and what follows it.
unfoldable pub send : Bool → ℕ → File → Flushed
send write_fails handle f =
    if write_fails
    then (failed, f, some f.contents)
    else (ok tt, if is_file_like_entry f then f else release_writer handle f, some f.contents)

-- Flush tolerates io.EOF, and fills with zeros what plugin.Read did not give.
unfoldable pub send_filled : Reply (List ℕ) → Bool → ℕ → File → Flushed
send_filled (ok bytes) write_fails handle f =
    send write_fails handle (record f { contents = pad_to f.read_size (f.contents ++ bytes) })
send_filled r write_fails handle f = (failed, f, none)

unfoldable pub flush_loaded : Load → Bool → ℕ → File → Flushed
flush_loaded unreadable write_fails handle f = (not_supported, f, none)
flush_loaded (loaded r) write_fails handle f = send_filled (tolerate_eof r) write_fails handle f

unfoldable pub flush_file_like : (ℕ → ℕ → ReadResult) → Bool → ℕ → File → Flushed
unfolding flush_loaded load
flush_file_like plugin_read write_fails handle f =
    if ltb f.read_size (length f.contents)
    then (panics, f, none)
    else if ltb (length f.contents) f.read_size
    then flush_loaded (load plugin_read f (length f.contents) f.read_size) write_fails handle f
    else send write_fails handle f

unfoldable pub flush : (ℕ → ℕ → ReadResult) → Bool → ℕ → File → Flushed
unfolding flush_file_like
flush plugin_read write_fails handle f =
    if is_writer handle f.writers
    then (if is_file_like_entry f
        then flush_file_like plugin_read write_fails handle f
        else send write_fails handle f)
    else (ok tt, f, none)

-- Release, with ReleaseFlush set or not: an error of the flush returns before releaseWriter.
unfoldable pub release_after : ℕ → Flushed → Flushed
release_after handle (ok a, f, sent) = (ok tt, release_writer handle f, sent)
release_after handle (e, f, sent) = (e, f, sent)

unfoldable pub release : Bool → (ℕ → ℕ → ReadResult) → Bool → ℕ → File → Flushed
unfolding release_after
release with_flush plugin_read write_fails handle f =
    if with_flush
    then release_after handle (flush plugin_read write_fails handle f)
    else (ok tt, release_writer handle f, none)

-- The resizing in Setattr
unfoldable pub resize : ℕ → File → File
resize size f = if is_file_like_entry f then record f { read_size = size } else record f {
  contents = if ltb size (length f.contents) then take size f.contents else pad_to size f.contents;
}

-- Setattr, with the size that it reports
unfoldable pub setattr : Bool → Bool → ℕ → ℕ → File → Reply ℕ × File
unfolding resize reported_size
setattr valid_size valid_handle handle size f =
    if valid_size
    then (if valid_handle
        then (let g = resize size (record f { writers = add_writer handle f.writers }) in
            (ok (reported_size g), g))
        else (not_supported, f))
    else (ok (reported_size f), f)

-- Fsync
abbrev pub fsync : File → Reply (Unit {0}) × File
fsync f = (no_such_call, f)
