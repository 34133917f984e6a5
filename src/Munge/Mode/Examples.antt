-- ===== src/Munge/Mode/Examples.antt =====
-- The modes of files that their owner reads and writes.
use wash.Prelude.{ℕ, ◌+◌, String, ◌≡◌, true, Option, none, some, arith}
use wash.Munge.Mode.{uint64, to_file_mode}
use wash.Munge.Mode.Types.{plain, to_file_mode_lem, to_file_mode_overlaps}

abbrev no_text : String → Option ℕ
no_text s = none

to_file_mode_lem_example :
    (to_file_mode no_text (uint64 (0o100000 + 0o600)) ≡ some (plain 0o600))
    × (to_file_mode no_text (uint64 (0o40000 + 0o600)) ≡ some (record (plain 0o600) { dir = true }))
    × (to_file_mode no_text (uint64 (0o20000 + 0o600))
        ≡ some (record (plain 0o600) { char_device = true }))
    × (to_file_mode no_text (uint64 (0o10000 + 0o600))
        ≡ some (record (plain 0o600) { named_pipe = true }))
to_file_mode_lem_example = to_file_mode_lem no_text 0o600 (omega arith)

to_file_mode_overlaps_example :
    (to_file_mode no_text (uint64 (0o140000 + 0o600))
      ≡ some (record (plain 0o600) { socket = true; dir = true }))
    × (to_file_mode no_text (uint64 (0o120000 + 0o600))
        ≡ some (record (plain 0o600) { symlink = true; char_device = true }))
    × (to_file_mode no_text (uint64 (0o60000 + 0o600))
        ≡ some (record (plain 0o600) { device = true; dir = true; char_device = true }))
to_file_mode_overlaps_example = to_file_mode_overlaps no_text 0o600 (omega arith)
