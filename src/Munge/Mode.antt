-- ===== src/Munge/Mode.antt =====
-- munge/mode.go. The bits of an os.FileMode are a record. `parse_uint` is strconv.ParseUint(s, 0, 32);
-- of a float64 it is known whether it equals float64(uint64(t)), and uint64(t).
pub mod Types
mod Examples
use wash.Prelude.{
  ℕ, ◌+◌, ◌-◌, ◌^◌, ◌%◌, ◌/◌, String, Bool, true, false, ◌&&◌, Option, none, some, ◌==◌,
}
use wash.Prelude.Int.{ℤ, pos, negsuc}
use wash.Prelude.Maybe.{◌>>=◌}

pub record FileMode : Type 0 where
  pub perm : ℕ
  pub socket : Bool
  pub symlink : Bool
  pub device : Bool
  pub dir : Bool
  pub char_device : Bool
  pub named_pipe : Bool
  pub setuid : Bool
  pub setgid : Bool
  pub sticky : Bool

pub data Loose : Type 0 where
  file_mode : FileMode → Loose
  uint64 : ℕ → Loose
  int64 : ℤ → Loose
  float64 : Bool → ℕ → Loose
  text : String → Loose
  other : Loose

-- uint64(t) of an int64
unfoldable pub wrap : ℤ → ℕ
wrap (pos n) = n
wrap (negsuc n) = 2 ^ 64 - (n + 1)

-- Whether the bit `k`, a power of two, is set
abbrev pub has_bit : ℕ → ℕ → Bool
has_bit k mode = (mode / k) % 2 == 1

module _ (parse_uint : String → Option ℕ) where
  unfoldable pub to_uint_mode : Loose → Option ℕ
  unfolding wrap
  to_uint_mode (uint64 n) = some n
  to_uint_mode (int64 i) = some (wrap i)
  to_uint_mode (float64 true n) = some n
  to_uint_mode (float64 false n) = none
  to_uint_mode (text s) = parse_uint s
  to_uint_mode (file_mode m) = none
  to_uint_mode other = none

-- `intMode & 0777`, and the loop over the masks: 0140000, 0120000, 0060000 have two bits each
unfoldable pub of_bits : ℕ → FileMode
of_bits mode = record {
  perm = mode % 0o1000;
  socket = has_bit 0o100000 mode && has_bit 0o40000 mode;
  symlink = has_bit 0o100000 mode && has_bit 0o20000 mode;
  device = has_bit 0o40000 mode && has_bit 0o20000 mode;
  dir = has_bit 0o40000 mode;
  char_device = has_bit 0o20000 mode;
  named_pipe = has_bit 0o10000 mode;
  setuid = has_bit 0o4000 mode;
  setgid = has_bit 0o2000 mode;
  sticky = has_bit 0o1000 mode;
}

unfoldable pub to_file_mode : (String → Option ℕ) → Loose → Option FileMode
unfolding of_bits to_uint_mode
to_file_mode parse_uint (file_mode m) = some m
to_file_mode parse_uint mode = do n ← to_uint_mode parse_uint mode; some (of_bits n)
