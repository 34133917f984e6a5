-- ===== src/Fuse/File/Flushing.antt =====
-- The bytes that Flush of fuse/file.go sends.
use wash.Prelude.{
  ℕ, ◌-◌, ◌≤◌, ◌<◌, ◌≡◌, refl, sym, ◌∙◌, inl, inr, true, false, some, List, ◌++◌, arith, ltb,
  Bool-cases, length, length-append, get_or, drop, length-take, length-drop, get_or-beyond,
}
use wash.Plugin.Content.{ReadResult}
use wash.Plugin.Content.Correct.{slice, read_error}
use wash.Fuse.File.{File, ok, is_file_like_entry, is_writer, pad_to}
use wash.Fuse.File.Handlers.{send, send_filled, flush_loaded, flush, Flushed, tolerate_error}
use wash.Fuse.File.Overwrite.{length-pad_to, get_or-pad_to}
use wash.Fuse.File.Views.{Serves, byte_at, byte_at-load, byte_at-inside, byte_at-past}

-- What a flush is to do to a file-like entry of the content `content`.
pub record Sends (content : List ℕ) (f : File) (result : Flushed) : Type 0 where
  pub sent : List ℕ
  pub replies : result.0 ≡ ok tt
  pub is_sent : result.2 ≡ some sent
  pub whole : length sent ≡ f.read_size
  pub bytes : (i : ℕ) → i < f.read_size → get_or sent i 0 ≡ byte_at content f.contents i
  pub keeps : result.1 ≡ record f { contents = sent }

tolerates :
    (content bytes : List ℕ) (size offset : ℕ)
    → tolerate_error bytes (read_error content size offset) ≡ ok bytes
tolerates content bytes size offset = ground arith

send_lem :
    (handle : ℕ) (f : File)
    → is_file_like_entry f ≡ true
    → send false handle f ≡ (ok tt, f, some f.contents)
unfolding send
send_lem handle f like = simp like

send_filled_lem :
    (handle : ℕ) (f : File) (bytes : List ℕ)
    → is_file_like_entry f ≡ true
    → send_filled (ok bytes) false handle f ≡ (
      ok tt,
      record f { contents = pad_to f.read_size (f.contents ++ bytes) },
      some (pad_to f.read_size (f.contents ++ bytes)),
    )
unfolding send_filled send
send_filled_lem handle f bytes like = simp like

-- The bytes that Flush loads and pads with.
filled : List ℕ → File → List ℕ
filled content f =
    pad_to f.read_size
      (f.contents ++ slice content (f.read_size - length f.contents) (length f.contents))

length-filled :
    (content : List ℕ) (f : File)
    → length f.contents ≤ f.read_size
    → length (filled content f) ≡ f.read_size
unfolding filled
length-filled content f h =
    let size = f.read_size - length f.contents in
    let part = slice content size (length f.contents) in
    omega (
      arith,
      length-pad_to f.read_size (f.contents ++ part),
      length-append f.contents part,
      length-take size (drop (length f.contents) content),
    )

filled_bytes :
    (content : List ℕ) (f : File) (i : ℕ)
    → length f.contents ≤ f.read_size
    → i < f.read_size
    → get_or (filled content f) i 0 ≡ byte_at content f.contents i
unfolding filled
filled_bytes content f i h l =
    let size = f.read_size - length f.contents in
    let part = slice content size (length f.contents) in
    let whole = f.contents ++ part in
    get_or-pad_to f.read_size whole i
    ∙ elim (Bool-cases (ltb i (length whole))) [
      | inl m ↦ sym (byte_at-inside content whole i (ground arith))
      | inr n ↦
          get_or-beyond whole i 0 (ground arith)
          ∙ sym (
              get_or-beyond content i 0 (
                ground (
                  arith,
                  length-append f.contents part,
                  length-take size (drop (length f.contents) content),
                  length-drop (length f.contents) content,
                )))
          ∙ sym (byte_at-past content whole i (ground arith))
    ]
    ∙ byte_at-load content f.contents size i

-- A flush by a writer of a readable file-like entry, whose plugin.Write succeeds, sends readSize
-- bytes: those of the local content, past it those of the plugin's content, and zeros past both.
-- They are the local content afterwards, and nothing else of the node changes.
pub flush_lem :
    (plugin_read : ℕ → ℕ → ReadResult) (content : List ℕ) (handle : ℕ) (f : File)
    → Serves plugin_read content
    → is_file_like_entry f ≡ true
    → f.entry.readable ≡ true
    → is_writer handle f.writers ≡ true
    → length f.contents ≤ f.read_size
    → Sends content f (flush plugin_read false handle f)
unfolding flush
flush_lem plugin_read content handle f serves like readable writer sized =
    elim (Bool-cases (ltb (length f.contents) f.read_size)) [
      | inr same ↦
          let not_longer : ltb f.read_size (length f.contents) ≡ false = ground arith in
          simp (like, writer, same, not_longer, send_lem handle f like)
            (record {
              sent = f.contents;
              replies = refl;
              is_sent = refl;
              whole = ground arith;
              bytes = λ i l. sym (byte_at-inside content f.contents i (ground arith));
              keeps = refl;
            })
      | inl shorter ↦
          let not_longer : ltb f.read_size (length f.contents) ≡ false = ground arith in
          let size = f.read_size - length f.contents in
          let start = length f.contents in
          simp (like, writer, shorter, not_longer, readable, serves size start, flush_loaded)
            (rw (tolerates content (slice content size start) size start) (
              rw (send_filled_lem handle f (slice content size start) like) (
                unfold filled in
                record {
                  sent = filled content f;
                  replies = refl;
                  is_sent = refl;
                  whole = length-filled content f sized;
                  bytes = λ i l. filled_bytes content f i sized l;
                  keeps = refl;
                })))
    ]
