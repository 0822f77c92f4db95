-- ===== src/Common/Stream.antt =====
-- Reading from a connection whose remaining input is a list of bytes, as `io.ReadFull` does.
use Prim.Native.Nat.{ℕ}
use mathlib.Core.Path.{◌≡◌}
use mathlib.Core.Option.{Option, none, some}
use mathlib.Core.List.{List, ◌++◌}
use native.Mathlib.Omega.{arith}
use mieru.Common.Tests.{ltb, if◌then◌else◌}
use mieru.Common.Lists.{length, take, drop, length-append, take-length-append, drop-length-append}

-- `none` is the error of a stream that ends too early; the rest is what is still to be read.
unfoldable pub read_full : ℕ → List ℕ → Option (List ℕ × List ℕ)
read_full n s = if ltb (length s) n then none else some (take n s, drop n s)

-- A read of exactly the bytes in front returns them and leaves what follows.
pub read_full-append : (xs rest : List ℕ) → read_full (length xs) (xs ++ rest) ≡ some (xs, rest)
unfolding read_full
read_full-append xs rest = ground (
  arith,
  length-append {0} xs rest,
  take-length-append {0} xs rest,
  drop-length-append {0} xs rest,
)
