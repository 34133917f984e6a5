-- ===== src/Fuse/File/Examples.antt =====
-- The theorems on file nodes, at a file of three bytes that plugin.Read serves.
use wash.Prelude.{ℕ, ◌≡◌, refl, inr, true, false, none, some, List, [], ◌∷◌, arith}
use wash.Plugin.Content.{ReadResult, whole, read}
use wash.Plugin.Content.Correct.{slice, read_error, read_lem}
use wash.Fuse.File.{Entry, File, ok, failed, panics, add_writer, is_writer}
use wash.Fuse.File.Handlers.{read_only, is_unsupported, open_file, write_file, flush, setattr}
use wash.Fuse.File.Views.{Serves}
use wash.Fuse.File.Writing.{Writes, write_file_lem}
use wash.Fuse.File.Flushing.{Sends, flush_lem}
use wash.Fuse.File.Session.{WriteRequest, SendsOverlay, run_writes, IsWithin, session_lem}
use wash.Fuse.File.Faults.{setattr-shrink_panics, open_file-flush_panics, write_file-past_end}

abbrev three_bytes : List ℕ
three_bytes = 10 ∷ 20 ∷ 30 ∷ []

abbrev plugin_read : ℕ → ℕ → ReadResult
plugin_read size offset = read (some 3) (some (whole three_bytes)) size offset

read_lem_example :
    read (some 3) (some (whole three_bytes)) 2 2
    ≡ record { bytes = slice three_bytes 2 2; error = read_error three_bytes 2 2 }
read_lem_example = read_lem (some 3) three_bytes 2 2 refl

plugin_read-Serves : Serves plugin_read three_bytes
plugin_read-Serves size offset = read_lem (some 3) three_bytes size offset refl

abbrev sample_entry : Entry
sample_entry = record { size_attr = some 3; readable = true; streamable = false; writable = true }

abbrev opened_file : File
opened_file = record { entry = sample_entry; writers = []; contents = []; read_size = 3 }

-- Handle 7 has written the first byte.
abbrev written_file : File
written_file = record { entry = sample_entry; writers = 7 ∷ []; contents = 11 ∷ []; read_size = 3 }

-- Handle 7 has written five bytes.
abbrev longer_file : File
longer_file = record {
  entry = sample_entry;
  writers = 7 ∷ [];
  contents = 1 ∷ 2 ∷ 3 ∷ 4 ∷ 5 ∷ [];
  read_size = 5;
}

has_writer : is_writer 7 (7 ∷ []) ≡ true
unfolding is_writer
has_writer = refl

write_file_lem_example :
    Writes three_bytes 2
      (8 ∷ 9 ∷ [])
      (record written_file { writers = add_writer 7 written_file.writers })
      (write_file plugin_read 7 2 (8 ∷ 9 ∷ []) written_file)
write_file_lem_example =
    write_file_lem plugin_read three_bytes 7 2 (8 ∷ 9 ∷ []) written_file plugin_read-Serves refl
      refl (inr (omega arith))

flush_lem_example : Sends three_bytes written_file (flush plugin_read false 7 written_file)
flush_lem_example =
    flush_lem plugin_read three_bytes 7 written_file plugin_read-Serves refl refl has_writer
      (omega arith)

abbrev second_request : WriteRequest
second_request = (3, 41 ∷ 42 ∷ [])

requests-IsWithin :
    IsWithin plugin_read three_bytes 7 ((1, 21 ∷ []) ∷ second_request ∷ []) opened_file
unfolding IsWithin
requests-IsWithin = (inr (omega arith), (inr (omega arith), tt))

session_lem_example :
    SendsOverlay three_bytes
      ((1, 21 ∷ []) ∷ second_request ∷ [])
      3
      (flush plugin_read false 7
        (run_writes plugin_read 7 ((1, 21 ∷ []) ∷ second_request ∷ []) opened_file)).2
session_lem_example =
    session_lem plugin_read three_bytes 7 plugin_read-Serves (1, 21 ∷ []) (second_request ∷ [])
      opened_file refl refl refl requests-IsWithin

setattr-shrink_panics_example :
    (flush plugin_read false 7 (setattr true true 7 4 longer_file).1).0 ≡ panics
setattr-shrink_panics_example =
    setattr-shrink_panics plugin_read false 7 4 longer_file refl (omega arith)

supports_reading : is_unsupported read_only sample_entry ≡ false
unfolding is_unsupported
supports_reading = refl

open_file-flush_panics_example :
    ((open_file read_only none (some 3) longer_file).0 ≡ ok false)
    × ((flush plugin_read false 7 (open_file read_only none (some 3) longer_file).1).0 ≡ panics)
open_file-flush_panics_example =
    open_file-flush_panics plugin_read false 7 3 read_only none longer_file refl supports_reading
      has_writer (omega arith)

write_file-past_end_example :
    write_file plugin_read 7 6 (1 ∷ []) opened_file
    ≡ (failed, record opened_file { writers = add_writer 7 opened_file.writers })
write_file-past_end_example =
    write_file-past_end plugin_read three_bytes 7 6 (1 ∷ []) opened_file plugin_read-Serves refl
      refl (omega arith) (omega arith)
