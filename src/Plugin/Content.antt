-- ===== src/Plugin/Content.antt =====
-- plugin.Read and plugin.Size (plugin/methodWrappers.go) over the contents of plugin/entryContent.go.
-- Sizes and offsets are natural numbers below 2^63, so the guards on negative ones cannot fail and
-- sums do not overflow. A content that could not be fetched is `none`.
pub mod Correct
use wash.Prelude.{
  ℕ, ◌+◌, Bool, true, false, Option, none, some, List, [], ltb, leb, if◌then◌else◌, length, take,
  drop,
}

pub data IoError : Type 0 where
  eof other : IoError

pub record ReadResult : Type 0 where
  pub bytes : List ℕ
  pub error : Option IoError

-- entryContentImpl and blockReadableEntryContent
pub data EntryContent : Type 0 where
  whole : List ℕ → EntryContent
  blocks : (ℕ → ℕ → ReadResult) → ℕ → EntryContent

-- entryContentImpl#read
unfoldable pub read_whole : List ℕ → ℕ → ℕ → ReadResult
read_whole content size offset =
    if leb (length content) offset
    then record { bytes = []; error = some eof }
    else if ltb (length content) (offset + size)
    then record { bytes = drop offset content; error = some eof }
    else record { bytes = take size (drop offset content); error = none }

unfoldable pub read_content : EntryContent → ℕ → ℕ → ReadResult
unfolding read_whole
read_content (whole content) size offset = read_whole content size offset
read_content (blocks read sz) size offset = read size offset

-- The size that is asked of the content, and the error so far.
unfoldable pub clip_size : Option ℕ → ℕ → ℕ → ℕ × Option IoError
clip_size none size offset = (size, none)
clip_size (some content_size) size offset =
    if ltb content_size (size + offset) then (content_size, some eof) else (size, none)

-- `offset >= contentSize`
abbrev pub is_past : Option ℕ → ℕ → Bool
is_past none offset = false
is_past (some content_size) offset = leb content_size offset

abbrev pub last_error : Option IoError → Option IoError → Option IoError
last_error before none = before
last_error before (some e) = some e

-- The call of `content.read`, and the check that it gave no more than was asked.
unfoldable pub finish_read : Option EntryContent → ℕ → Option IoError → ℕ → ReadResult
unfolding read_content
finish_read none size err offset = record { bytes = []; error = some other }
finish_read (some content) size err offset =
    let r = read_content content size offset in
    if ltb size (length r.bytes)
    then record { bytes = []; error = some other }
    else record { bytes = r.bytes; error = last_error err r.error }

unfoldable pub read : Option ℕ → Option EntryContent → ℕ → ℕ → ReadResult
unfolding clip_size finish_read
read attr_size content size offset =
    if is_past attr_size offset
    then record { bytes = []; error = some eof }
    else finish_read content (clip_size attr_size size offset).0 (clip_size attr_size size offset).1
        offset

-- entryContent#size and plugin.Size; `none` is an error of the fetch
unfoldable pub content_size : EntryContent → ℕ
content_size (whole content) = length content
content_size (blocks read sz) = sz

unfoldable pub size_of : Option ℕ → Bool → Option EntryContent → Option ℕ
unfolding content_size
size_of (some n) readable content = some n
size_of none false content = some 0
size_of none true none = none
size_of none true (some content) = some (content_size content)
