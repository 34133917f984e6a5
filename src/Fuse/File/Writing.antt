-- ===== src/Fuse/File/Writing.antt =====
-- The bytes of a node before and after Write of fuse/file.go.
use wash.Prelude.{
  ℕ, ◌+◌, ◌-◌, ◌≤◌, ◌<◌, ◌≡◌, refl, ap, ◌∙◌, ◌⊎◌, inl, inr, true, none, List, ◌++◌, arith, ltb,
  Bool-cases, length, length-append, max, drop, length-take, length-drop,
}
use wash.Plugin.Content.{ReadResult}
use wash.Plugin.Content.Correct.{slice, read_error}
use wash.Fuse.File.{File, Reply, ok, is_file_like_entry, add_writer, pad_to}
use wash.Fuse.File.Handlers.{write_at, write_file}
use wash.Fuse.File.Overwrite.{overlay, length-overwrite, length-pad_to}
use wash.Fuse.File.Views.{Serves, byte_at, byte_at-load, byte_at-overwrite, overlay-cong}

-- What a write is to do to a file-like entry of the content `content`.
pub record Writes (content : List ℕ) (offset : ℕ) (bytes : List ℕ) (f : File)
    (result : Reply ℕ × File) : Type 0 where
  pub replies : result.0 ≡ ok (length bytes)
  pub lays :
      (i : ℕ)
      → byte_at content result.1.contents i ≡ overlay offset bytes (byte_at content f.contents) i
  pub grows : result.1.read_size ≡ max f.read_size (offset + length bytes)
  pub stays_sized : length f.contents ≤ f.read_size → length result.1.contents ≤ result.1.read_size
  pub keeps_entry : result.1.entry ≡ f.entry
  pub keeps_writers : result.1.writers ≡ f.writers

write_at_lem :
    (content : List ℕ) (offset : ℕ) (bytes : List ℕ) (f : File)
    → is_file_like_entry f ≡ true
    → offset ≤ length f.contents
    → Writes content offset bytes f (write_at offset bytes f)
unfolding write_at
write_at_lem content offset bytes f like near =
    let new_len = offset + length bytes in
    let padded = pad_to new_len f.contents in
    let padded_length = length-pad_to new_len f.contents in
    let same_length = length-overwrite padded offset bytes in
    record {
      replies = ap ok (omega (arith, padded_length));
      lays = λ i. byte_at-overwrite content f.contents offset bytes i near;
      grows = rw like (ground arith);
      stays_sized = λ h. rw like (ground (arith, padded_length, same_length));
      keeps_entry = refl;
      keeps_writers = refl;
    }

read_error-inside :
    (content : List ℕ) (size offset : ℕ)
    → 0 < size
    → offset + size ≤ length content
    → read_error content size offset ≡ none
read_error-inside content size offset pos h = ground arith

-- The bytes up to the offset are loaded first.
write_loaded_lem :
    (content : List ℕ) (offset : ℕ) (bytes : List ℕ) (f : File)
    → is_file_like_entry f ≡ true
    → length f.contents < offset
    → offset ≤ length content
    → Writes content offset bytes f (
        write_at offset bytes (record f {
          contents = f.contents ++ slice content (offset - length f.contents) (length f.contents);
        }))
unfolding write_at
write_loaded_lem content offset bytes f like gap near =
    let size = offset - length f.contents in
    let part = slice content size (length f.contents) in
    let whole = f.contents ++ part in
    let new_len = offset + length bytes in
    let padded = pad_to new_len whole in
    let padded_length = length-pad_to new_len whole in
    let same_length = length-overwrite padded offset bytes in
    let part_length : length part ≡ size = omega (
      arith,
      length-take size (drop (length f.contents) content),
      length-drop (length f.contents) content,
    ) in
    let whole_length : length whole ≡ offset =
      omega (arith, length-append f.contents part, part_length) in
    record {
      replies = ap ok (omega (arith, padded_length));
      lays = λ i.
          byte_at-overwrite content whole offset bytes i (omega (arith, whole_length))
          ∙ overlay-cong offset bytes (byte_at content whole) (byte_at content f.contents) i
              (λ out. byte_at-load content f.contents size i);
      grows = rw like (ground arith);
      stays_sized = λ h. rw like (ground (arith, padded_length, same_length, whole_length));
      keeps_entry = refl;
      keeps_writers = refl;
    }

-- Write of a readable file-like entry succeeds if its offset lies inside the local content or inside
-- the content of the plugin. It replies with the number of bytes, makes the handle a writer, and of
-- all bytes of the file it changes those that it was given; readSize grows to cover them, and stays
-- at least the length of the local content.
pub write_file_lem :
    (plugin_read : ℕ → ℕ → ReadResult) (content : List ℕ) (handle offset : ℕ) (bytes : List ℕ)
    (f : File)
    → Serves plugin_read content
    → is_file_like_entry f ≡ true
    → f.entry.readable ≡ true
    → offset ≤ length f.contents ⊎ offset ≤ length content
    → Writes content offset bytes
        (record f { writers = add_writer handle f.writers })
        (write_file plugin_read handle offset bytes f)
unfolding write_file
write_file_lem plugin_read content handle offset bytes f serves like readable near =
    let g : File = record f { writers = add_writer handle f.writers } in
    elim (Bool-cases (ltb (length f.contents) offset)) [
      | inr reached ↦ simp (like, reached) (write_at_lem content offset bytes g like (ground arith))
      | inl gap ↦
          let inside : read_error content (offset - length f.contents) (length f.contents) ≡ none =
            read_error-inside content (offset - length f.contents) (length f.contents)
              (ground arith) (ground arith) in
          simp
            (like, gap, readable, serves (offset - length f.contents) (length f.contents), inside)
            (write_loaded_lem content offset bytes g like (ground arith) (ground arith))
    ]
