-- ===== src/Volume/Fs.antt =====
-- volume/fs.go: the commands of a volume over exec. What plugin.Exec sends is a list of chunks, then
-- the exit code; `none` is its error.
use wash.Prelude.{
  ℕ, String, Bool, true, false, ◌&&◌, ◌||◌, Option, none, some, List, [], ◌∷◌, ◌==◌, if◌then◌else◌,
}
use wash.Prelude.Int.{ℤ}
use wash.Prelude.Texts.{is_empty}
use wash.Volume.Dir.{Deletion, deletion, deletion_failed}
use wash.Volume.Posix.{StatResult, stat_error, trim_space, normal_error_posix, parse_stat_posix}
use wash.Volume.Powershell.{parse_stat_powershell}
use Prim.Native.Char.{code}
use Prim.Native.String.{◌++◌ as append_string}

pub data Chunk : Type 0 where
  stdout_chunk stderr_chunk : String → Chunk
  error_chunk : Chunk

-- What exec returns: a buffer, a nonZeroError with its trimmed stderr beside the buffer, or an error
pub data Executed : Type 0 where
  output_of : String → Executed
  nonzero : String → String → Executed
  exec_failed : Executed

-- The loop over the chunks: the two buffers, and whether there was an error
unfoldable pub gather : List Chunk → String × String × Bool
gather [] = ("", "", false)
gather (stdout_chunk s ∷ chunks) = let r = gather chunks in (append_string s r.0, r.1, r.2)
gather (stderr_chunk s ∷ chunks) = let r = gather chunks in (r.0, append_string s r.1, r.2)
gather (error_chunk ∷ chunks) = let r = gather chunks in (r.0, r.1, true)

-- exec
unfoldable pub exec : Option (List Chunk × Option ℕ) → Executed
unfolding gather trim_space
exec none = exec_failed
exec (some (chunks, exit_code)) =
    let r = gather chunks in
    if r.2 then exec_failed else elim exit_code [
      | none ↦ exec_failed
      | some n ↦ if n == 0 then output_of r.0 else nonzero r.0 (trim_space r.1)
    ]

pub data Shell : Type 0 where
  unknown_shell posix_shell power_shell : Shell

-- loginShell, of the OS attribute if it is set
unfoldable pub login_shell : Option Shell → Shell
login_shell none = posix_shell
login_shell (some unknown_shell) = posix_shell
login_shell (some s) = s

-- strings.Split(s, "\n"): the first line and the others
unfoldable pub split_lines : String → String × List String
split_lines String.[] = (String.[], [])
split_lines (String.◌∷◌ c s) =
    let r = split_lines s in
    if code c == 10 then (String.[], r.0 ∷ r.1) else (String.◌∷◌ c r.0, r.1)

-- normalError: NormalErrorPOSIX, and NormalErrorPowerShell, which is true of no line
unfoldable pub is_normal : Shell → String → Bool
unfolding normal_error_posix
is_normal posix_shell line = normal_error_posix line
is_normal power_shell line = false
is_normal unknown_shell line = false

-- Whether VolumeList tolerates all lines
unfoldable pub are_normal : Shell → List String → Bool
unfolding trim_space is_empty is_normal
are_normal shell [] = true
are_normal shell (line ∷ lines) =
    (is_empty (trim_space line) || is_normal shell (trim_space line)) && are_normal shell lines

-- `scan` is bufio.Scanner on a buffer, its lines and whether it fails; `read_csv` the CSV reader.
module _ (parse_uint : String → Option ℕ) (parse_rfc3339 : String → Option ℤ)
    (scan : String → List String × Bool) (read_csv : String → Option (List (List String))) where
  -- The end of VolumeList; `none` is the panic on an unknown shell or of the parser.
  unfoldable pub parse_listing : Shell → String → ℕ → String → Option StatResult
  unfolding parse_stat_posix parse_stat_powershell
  parse_listing posix_shell path maxdepth buf =
      parse_stat_posix parse_uint "" path maxdepth (scan buf).1 (scan buf).0
  parse_listing power_shell path maxdepth buf =
      parse_stat_powershell parse_rfc3339 "" path maxdepth (read_csv buf)
  parse_listing unknown_shell path maxdepth buf = none

  -- VolumeList, given what its command's exec returns; choosing the command for an unknown shell
  -- panics before it.
  unfoldable pub volume_list : Shell → String → ℕ → Executed → Option StatResult
  unfolding parse_listing are_normal split_lines
  volume_list unknown_shell path maxdepth executed = none
  volume_list shell path maxdepth exec_failed = some stat_error
  volume_list shell path maxdepth (output_of buf) = parse_listing shell path maxdepth buf
  volume_list shell path maxdepth (nonzero buf err) =
      if are_normal shell ((split_lines err).0 ∷ (split_lines err).1)
      then parse_listing shell path maxdepth buf
      else some stat_error

-- VolumeRead: the content, or an error, a command that exits with a failure included
unfoldable pub volume_read : Executed → Option String
volume_read (output_of buf) = some buf
volume_read (nonzero buf err) = none
volume_read exec_failed = none

-- VolumeDelete
unfoldable pub volume_delete : Executed → Deletion
volume_delete (output_of buf) = deletion true
volume_delete (nonzero buf err) = deletion_failed
volume_delete exec_failed = deletion_failed
