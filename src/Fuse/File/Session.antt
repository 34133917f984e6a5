-- ===== src/Fuse/File/Session.antt =====
-- A writing session of one handle of fuse/file.go: writes, and the flush when it is closed.
use wash.Prelude.{
  ℕ, ◌+◌, ◌≤◌, ◌<◌, ◌≡◌, refl, ap, ◌∙◌, ◌⊎◌, inl, inr, true, false, Option, some, List, [], ◌∷◌,
  arith, Bool-cases, ==_refl, length, max, get_or,
}
use wash.Plugin.Content.{ReadResult}
use wash.Fuse.File.{File, has_size, is_file_like_entry, is_writer, add_writer}
use wash.Fuse.File.Handlers.{write_file, flush}
use wash.Fuse.File.Overwrite.{overlay}
use wash.Fuse.File.Views.{Serves, byte_at, byte_at-past, overlay-cong}
use wash.Fuse.File.Writing.{Writes, write_file_lem}
use wash.Fuse.File.Flushing.{Sends, flush_lem}

abbrev pub WriteRequest : Type 0
WriteRequest = ℕ × List ℕ

-- The requests of one handle in turn, whatever their replies.
pub run_writes : (ℕ → ℕ → ReadResult) → ℕ → List WriteRequest → File → File
run_writes plugin_read handle [] f = f
run_writes plugin_read handle ((offset, bytes) ∷ ws) f =
    run_writes plugin_read handle ws (write_file plugin_read handle offset bytes f).1

-- The bytes of a file after the requests, the last one on top.
abbrev pub overlays : List WriteRequest → (ℕ → ℕ) → ℕ → ℕ
overlays [] old = old
overlays ((offset, bytes) ∷ ws) old = overlays ws (overlay offset bytes old)

abbrev pub furthest : List WriteRequest → ℕ → ℕ
furthest [] size = size
furthest ((offset, bytes) ∷ ws) size = furthest ws (max size (offset + length bytes))

-- Each request begins inside the local content of its time, or inside the content of the plugin.
unfoldable pub IsWithin : (ℕ → ℕ → ReadResult) → List ℕ → ℕ → List WriteRequest → File → Type 0
IsWithin plugin_read content handle [] f = Unit {0}
IsWithin plugin_read content handle ((offset, bytes) ∷ ws) f =
    (offset ≤ length f.contents ⊎ offset ≤ length content)
    × IsWithin plugin_read content handle ws (write_file plugin_read handle offset bytes f).1

pub is_writer-add_writer :
    (handle : ℕ) (ws : List ℕ) → is_writer handle (add_writer handle ws) ≡ true
unfolding is_writer add_writer
is_writer-add_writer handle ws = elim (Bool-cases (is_writer handle ws)) [
  | inl e ↦ rw (e, e)
  | inr e ↦ rw (e, ==_refl handle)
]

overlays-cong :
    (ws : List WriteRequest) (old new : ℕ → ℕ)
    → ((i : ℕ) → old i ≡ new i)
    → (i : ℕ) → overlays ws old i ≡ overlays ws new i
overlays-cong [] old new h i = h i
overlays-cong ((offset, bytes) ∷ ws) old new h i =
    overlays-cong ws (overlay offset bytes old) (overlay offset bytes new)
      (λ j. overlay-cong offset bytes old new j (λ out. h j)) i

-- The node during the session.
record IsWriting (f : File) : Type 0 where
  file_like : is_file_like_entry f ≡ true
  readable : f.entry.readable ≡ true
  sized : length f.contents ≤ f.read_size

record Ran (content : List ℕ) (handle : ℕ) (ws : List WriteRequest) (f g : File) : Type 0 where
  still : IsWriting g
  size : g.read_size ≡ furthest ws f.read_size
  bytes : (i : ℕ) → byte_at content g.contents i ≡ overlays ws (byte_at content f.contents) i
  writer : is_writer handle f.writers ≡ true → is_writer handle g.writers ≡ true

-- What closing the handle is to send.
pub record SendsOverlay (content : List ℕ) (ws : List WriteRequest) (size : ℕ)
    (result : Option (List ℕ)) : Type 0 where
  pub sent : List ℕ
  pub is_sent : result ≡ some sent
  pub whole : length sent ≡ furthest ws size
  pub overlaid :
      (i : ℕ) → i < furthest ws size → get_or sent i 0 ≡ overlays ws (λ j. get_or content j 0) i

module _ (plugin_read : ℕ → ℕ → ReadResult) (content : List ℕ) (handle : ℕ)
    (serves : Serves plugin_read content) where
  first_write :
      (offset : ℕ) (bytes : List ℕ) (f : File)
      → IsWriting f
      → offset ≤ length f.contents ⊎ offset ≤ length content
      → Writes content offset bytes
          (record f { writers = add_writer handle f.writers })
          (write_file plugin_read handle offset bytes f)
  first_write offset bytes f w near =
      write_file_lem plugin_read content handle offset bytes f serves w.file_like w.readable near

  write-IsWriting :
      (offset : ℕ) (bytes : List ℕ) (f : File)
      → IsWriting f
      → offset ≤ length f.contents ⊎ offset ≤ length content
      → IsWriting (write_file plugin_read handle offset bytes f).1
  write-IsWriting offset bytes f w near =
      let done = first_write offset bytes f w near in
      record {
        file_like = ap (λ e. has_size e.size_attr) done.keeps_entry ∙ w.file_like;
        readable = ap (λ e. e.readable) done.keeps_entry ∙ w.readable;
        sized = done.stays_sized w.sized;
      }

  write-is_writer :
      (offset : ℕ) (bytes : List ℕ) (f : File)
      → IsWriting f
      → offset ≤ length f.contents ⊎ offset ≤ length content
      → is_writer handle (write_file plugin_read handle offset bytes f).1.writers ≡ true
  write-is_writer offset bytes f w near =
      ap (is_writer handle) (first_write offset bytes f w near).keeps_writers
      ∙ is_writer-add_writer handle f.writers

  run_writes_lem :
      (ws : List WriteRequest) (f : File)
      → IsWriting f
      → IsWithin plugin_read content handle ws f
      → Ran content handle ws f (run_writes plugin_read handle ws f)
  unfolding run_writes IsWithin
  run_writes_lem [] f w within = record {
    still = w;
    size = refl;
    bytes = λ i. refl;
    writer = λ h. h;
  }
  run_writes_lem ((offset, bytes) ∷ ws) f w (near, within) =
      let next = (write_file plugin_read handle offset bytes f).1 in
      let done = first_write offset bytes f w near in
      let rest : Ran content handle ws next (run_writes plugin_read handle ws next) =
        run_writes_lem ws next (write-IsWriting offset bytes f w near) within in
      record {
        still = rest.still;
        size = rest.size ∙ ap (furthest ws) done.grows;
        bytes = λ i.
            rest.bytes i
            ∙ overlays-cong ws (byte_at content next.contents)
                (overlay offset bytes (byte_at content f.contents)) done.lays i;
        writer = λ h. rest.writer (write-is_writer offset bytes f w near);
      }

  -- A handle writes to a readable file-like node that has no local content yet, at least once, and is
  -- closed; plugin.Read serves `content` all the while and plugin.Write succeeds. Then plugin.Write
  -- is given the content with the bytes of the requests laid over it in their order, as long as the
  -- size that the node knew or the end of the furthest request, with zeros where nothing was.
  pub session_lem :
      (w : WriteRequest) (ws : List WriteRequest) (f : File)
      → is_file_like_entry f ≡ true
      → f.entry.readable ≡ true
      → f.contents ≡ []
      → IsWithin plugin_read content handle (w ∷ ws) f
      → SendsOverlay content
          (w ∷ ws)
          f.read_size
          (flush plugin_read false handle (run_writes plugin_read handle (w ∷ ws) f)).2
  unfolding run_writes IsWithin
  session_lem (offset, bytes) ws f like readable fresh within =
      let writing : IsWriting f = record {
        file_like = like;
        readable = readable;
        sized = omega (arith, ap length fresh);
      } in
      let next = (write_file plugin_read handle offset bytes f).1 in
      let g = run_writes plugin_read handle ws next in
      let ran : Ran content handle ((offset, bytes) ∷ ws) f g =
        run_writes_lem ((offset, bytes) ∷ ws) f writing within in
      let rest : Ran content handle ws next g =
        run_writes_lem ws next (write-IsWriting offset bytes f writing within.0) within.1 in
      let sends : Sends content g (flush plugin_read false handle g) =
        flush_lem plugin_read content handle g serves ran.still.file_like ran.still.readable
          (rest.writer (write-is_writer offset bytes f writing within.0)) ran.still.sized in
      record {
        sent = sends.sent;
        is_sent = sends.is_sent;
        whole = sends.whole ∙ ran.size;
        overlaid = λ i l.
            sends.bytes i (omega (arith, ran.size))
            ∙ ran.bytes i
            ∙ overlays-cong ((offset, bytes) ∷ ws) (byte_at content f.contents)
                (λ j. get_or content j 0)
                (λ j.
                  ap (λ local. byte_at content local j) fresh
                  ∙ byte_at-past content [] j (omega arith))
                i;
      }
