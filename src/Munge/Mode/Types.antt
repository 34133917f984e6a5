-- ===== src/Munge/Mode/Types.antt =====
-- The types of files in the modes of stat, under ToFileMode (munge/mode.go).
use wash.Prelude.{
  ℕ, ◌+◌, ◌%◌, ◌/◌, ◌<◌, String, ◌≡◌, refl, ap, ◌∙◌, Bool, true, false, ◌&&◌, Option, some, arith,
}
use wash.Munge.Mode.{FileMode, uint64, has_bit, of_bits, to_file_mode}

-- A mode without any type bit
abbrev pub plain : ℕ → FileMode
plain perm = record {
  perm = perm;
  socket = false;
  symlink = false;
  device = false;
  dir = false;
  char_device = false;
  named_pipe = false;
  setuid = false;
  setgid = false;
  sticky = false;
}

with_bits : ℕ → Bool → Bool → Bool → Bool → FileMode
with_bits perm b15 b14 b13 b12 = record {
  perm = perm;
  socket = b15 && b14;
  symlink = b15 && b13;
  device = b14 && b13;
  dir = b14;
  char_device = b13;
  named_pipe = b12;
  setuid = false;
  setgid = false;
  sticky = false;
}

-- A mode whose three bits above the permissions are not set, by the four bits of its type.
of_bits-with_bits :
    (mode : ℕ) (b15 b14 b13 b12 : Bool)
    → has_bit 0o100000 mode ≡ b15
    → has_bit 0o40000 mode ≡ b14
    → has_bit 0o20000 mode ≡ b13
    → has_bit 0o10000 mode ≡ b12
    → (mode / 0o1000) % 8 ≡ 0
    → of_bits mode ≡ with_bits (mode % 0o1000) b15 b14 b13 b12
unfolding of_bits with_bits
of_bits-with_bits mode b15 b14 b13 b12 e15 e14 e13 e12 low =
    let e11 : has_bit 0o4000 mode ≡ false = ground arith in
    let e10 : has_bit 0o2000 mode ≡ false = ground arith in
    let e9 : has_bit 0o1000 mode ≡ false = ground arith in
    rw (e15, e14, e13, e12, e11, e10, e9) refl

module _ (parse_uint : String → Option ℕ) (perm : ℕ) (small : perm < 0o1000) where
  of_type :
      (base : ℕ) (b15 b14 b13 b12 : Bool)
      → (base + perm) % 0o1000 ≡ perm
      → of_bits (base + perm) ≡ with_bits ((base + perm) % 0o1000) b15 b14 b13 b12
      → to_file_mode parse_uint (uint64 (base + perm)) ≡ some (with_bits perm b15 b14 b13 b12)
  unfolding to_file_mode
  of_type base b15 b14 b13 b12 same bits =
      ap some (bits ∙ ap (λ p. with_bits p b15 b14 b13 b12) same)

  -- Of regular files, directories, character devices and named pipes, with permission bits only,
  -- ToFileMode gives the permission bits and the one type bit, none for a regular file.
  pub to_file_mode_lem :
      (to_file_mode parse_uint (uint64 (0o100000 + perm)) ≡ some (plain perm))
      × (to_file_mode parse_uint (uint64 (0o40000 + perm))
          ≡ some (record (plain perm) { dir = true }))
      × (to_file_mode parse_uint (uint64 (0o20000 + perm))
          ≡ some (record (plain perm) { char_device = true }))
      × (to_file_mode parse_uint (uint64 (0o10000 + perm))
          ≡ some (record (plain perm) { named_pipe = true }))
  unfolding with_bits
  to_file_mode_lem = (
    of_type 0o100000 true false false false (omega arith) (
        of_bits-with_bits (0o100000 + perm) true false false false (ground arith) (ground arith)
          (ground arith) (ground arith) (omega arith)),
    of_type 0o40000 false true false false (omega arith) (
        of_bits-with_bits (0o40000 + perm) false true false false (ground arith) (ground arith)
          (ground arith) (ground arith) (omega arith)),
    of_type 0o20000 false false true false (omega arith) (
        of_bits-with_bits (0o20000 + perm) false false true false (ground arith) (ground arith)
          (ground arith) (ground arith) (omega arith)),
    of_type 0o10000 false false false true (omega arith) (
        of_bits-with_bits (0o10000 + perm) false false false true (ground arith) (ground arith)
          (ground arith) (ground arith) (omega arith)),
  )

  -- The masks of the other types hold those of a directory or of a character device: a socket is
  -- given the bit of a directory too, a symbolic link that of a character device, and a block device
  -- both.
  pub to_file_mode_overlaps :
      (to_file_mode parse_uint (uint64 (0o140000 + perm))
        ≡ some (record (plain perm) { socket = true; dir = true }))
      × (to_file_mode parse_uint (uint64 (0o120000 + perm))
          ≡ some (record (plain perm) { symlink = true; char_device = true }))
      × (to_file_mode parse_uint (uint64 (0o60000 + perm))
          ≡ some (record (plain perm) { device = true; dir = true; char_device = true }))
  unfolding with_bits
  to_file_mode_overlaps = (
    of_type 0o140000 true true false false (omega arith) (
        of_bits-with_bits (0o140000 + perm) true true false false (ground arith) (ground arith)
          (ground arith) (ground arith) (omega arith)),
    of_type 0o120000 true false true false (omega arith) (
        of_bits-with_bits (0o120000 + perm) true false true false (ground arith) (ground arith)
          (ground arith) (ground arith) (omega arith)),
    of_type 0o60000 false true true false (omega arith) (
        of_bits-with_bits (0o60000 + perm) false true true false (ground arith) (ground arith)
          (ground arith) (ground arith) (omega arith)),
  )
