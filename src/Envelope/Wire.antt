-- ===== src/Envelope/Wire.antt =====
-- envelope/rust_stream.rs and fast_stream.rs: numbers and slices in a value of bytes, read from a
-- position that moves on.
pub mod Laws
use ruststream_fred.Common.{
  ℕ, zero, suc, ◌+◌, ◌-◌, ◌*◌, ◌/◌, ◌%◌, ◌^◌, ◌&&◌, List, [], ◌∷◌, Option, none, some, leb, ltb,
  length, take, drop, if◌then◌else◌,
}
use ruststream_fred.Server.Text.{Bytes}

infixl 5 ◌>>=◌
-- `?` on an `Option`
abbrev pub ◌>>=◌ : {A B : Type 0} → Option A → (A → Option B) → Option B
none >>= f = none
some a >>= f = f a

-- `checked_add` of `usize`
unfoldable pub checked_end : ℕ → ℕ → Option ℕ
checked_end pos n = if ltb (pos + n) (2 ^ 64) then some (pos + n) else none

-- `bytes.get(start..end)`
unfoldable pub range : ℕ → ℕ → Bytes → Option Bytes
range start end bytes =
    if leb start end && leb end (length bytes)
    then some (take (end - start) (drop start bytes))
    else none

-- `read_slice`: the slice, and the position past it.
unfoldable pub read_slice : Bytes → ℕ → ℕ → Option (Bytes × ℕ)
read_slice bytes pos len = do
  end ← checked_end pos len
  slice ← range pos end bytes
  some (slice, end)

-- `from_be_bytes`
abbrev pub from_be_bytes : ℕ → Bytes → ℕ
from_be_bytes n [] = n
from_be_bytes n (x ∷ xs) = from_be_bytes (n * 256 + x) xs

-- `u32::to_be_bytes` and `u16::to_be_bytes`
unfoldable pub u32_bytes : ℕ → Bytes
u32_bytes n = n / 16777216 % 256 ∷ n / 65536 % 256 ∷ n / 256 % 256 ∷ n % 256 ∷ []

unfoldable pub u16_bytes : ℕ → Bytes
u16_bytes n = n / 256 % 256 ∷ n % 256 ∷ []

-- `read_u32` and `read_u16`
unfoldable pub read_u32 : Bytes → ℕ → Option (ℕ × ℕ)
read_u32 bytes pos = do r ← read_slice bytes pos 4; some (from_be_bytes 0 r.0, r.1)

unfoldable pub read_u16 : Bytes → ℕ → Option (ℕ × ℕ)
read_u16 bytes pos = do r ← read_slice bytes pos 2; some (from_be_bytes 0 r.0, r.1)
