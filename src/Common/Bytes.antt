-- ===== src/Common/Bytes.antt =====
-- Byte slices as lists of numbers, and Go's encoding/binary.BigEndian on them.
use Prim.Native.Nat.{ℕ, ◌+◌, ◌*◌, ◌/◌, ◌%◌, ◌^◌, ◌<◌}
use mathlib.Core.Path.{◌≡◌}
use mathlib.Core.List.{List}
use native.Mathlib.Omega.{arith}
use mieru.Common.Lists.{get_or, set, All}

abbrev pub IsByte : ℕ → Type 0
IsByte b = b < 2 ^ 8

abbrev pub IsU16 : ℕ → Type 0
IsU16 v = v < 2 ^ 16

abbrev pub IsU32 : ℕ → Type 0
IsU32 v = v < 2 ^ 32

abbrev pub IsBytes : List ℕ → Type 0
IsBytes = All IsByte

-- `binary.BigEndian.Uint16(b[i:])`
abbrev pub uint16 : List ℕ → ℕ → ℕ
uint16 b i = get_or b i 0 * 2 ^ 8 + get_or b (i + 1) 0

-- `binary.BigEndian.Uint32(b[i:])`
abbrev pub uint32 : List ℕ → ℕ → ℕ
uint32 b i =
    get_or b i 0 * 2 ^ 24
    + get_or b (i + 1) 0 * 2 ^ 16
    + get_or b (i + 2) 0 * 2 ^ 8
    + get_or b (i + 3) 0

-- `binary.BigEndian.PutUint16(b[i:], v)`
abbrev pub put_uint16 : List ℕ → ℕ → ℕ → List ℕ
put_uint16 b i v = set (set b i (v / 2 ^ 8 % 2 ^ 8)) (i + 1) (v % 2 ^ 8)

-- `binary.BigEndian.PutUint32(b[i:], v)`
abbrev pub put_uint32 : List ℕ → ℕ → ℕ → List ℕ
put_uint32 b i v =
    set
      (set (set (set b i (v / 2 ^ 24 % 2 ^ 8)) (i + 1) (v / 2 ^ 16 % 2 ^ 8)) (i + 2)
        (v / 2 ^ 8 % 2 ^ 8))
      (i + 3) (v % 2 ^ 8)

-- Big-endian digits read back to the number.
pub uint16_parts : (v : ℕ) → IsU16 v → v / 2 ^ 8 % 2 ^ 8 * 2 ^ 8 + v % 2 ^ 8 ≡ v
uint16_parts v h = omega arith

pub uint32_parts :
    (v : ℕ)
    → IsU32 v
    → v / 2 ^ 24 % 2 ^ 8 * 2 ^ 24
        + v / 2 ^ 16 % 2 ^ 8 * 2 ^ 16
        + v / 2 ^ 8 % 2 ^ 8 * 2 ^ 8
        + v % 2 ^ 8
      ≡ v
uint32_parts v h = omega arith
