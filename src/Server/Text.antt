-- ===== src/Server/Text.antt =====
-- Byte strings as `String::from_utf8`, `eq_ignore_ascii_case`, `parse` and `to_string` of the
-- standard library read and write them. A `&str` is its UTF-8 bytes.
pub mod Decimal
use Prim.Native.Char.{code}
use Prim.Native.String.{String}
use ruststream_fred.Common.{
  ℕ, zero, suc, ◌+◌, ◌-◌, Bool, true, false, ◌&&◌, ◌||◌, List, [], ◌∷◌, ◌++◌, leb, length, drop,
  take, if◌then◌else◌,
}
use ruststream_fred.Common.Order.{◌==◌, nat_ord, bytes_ord}

abbrev pub Bytes : Type 0
Bytes = List ℕ

-- The bytes of an ASCII literal.
abbrev pub b : String → Bytes
b String.[] = []
b (String.◌∷◌ c s) = code c ∷ b s

within : ℕ → ℕ → ℕ → Bool
within lo hi x = leb lo x && leb x hi

-- The next byte, and whether it lies in a range.
next_in : ℕ → ℕ → List ℕ → Bool
unfolding within
next_in lo hi [] = false
next_in lo hi (x ∷ xs) = within lo hi x

-- A sequence of continuation bytes behind a lead: whether it is whole, and how many bytes the
-- sequence, or its longest valid beginning, takes.
continues : ℕ → ℕ → ℕ → List ℕ → Bool × ℕ
unfolding next_in
continues zero lo hi xs = (true, 1)
continues (suc n) lo hi xs =
    let (good, taken) = continues n 0x80 0xBF (drop 1 xs) in
    if next_in lo hi xs then (good, suc taken) else (false, 1)

-- What the byte `x` opens, by the table of well-formed sequences of the Unicode standard.
sequence : ℕ → List ℕ → Bool × ℕ
unfolding continues
sequence x xs =
    if leb x 0x7F
    then (true, 1)
    else if within 0xC2 0xDF x
    then continues 1 0x80 0xBF xs
    else if x == 0xE0
    then continues 2 0xA0 0xBF xs
    else if x == 0xED
    then continues 2 0x80 0x9F xs
    else if within 0xE1 0xEF x
    then continues 2 0x80 0xBF xs
    else if x == 0xF0
    then continues 3 0x90 0xBF xs
    else if within 0xF1 0xF3 x
    then continues 3 0x80 0xBF xs
    else if x == 0xF4
    then continues 3 0x80 0x8F xs
    else (false, 1)

-- With fuel for each byte.
utf8_from : ℕ → List ℕ → Bool
unfolding sequence
utf8_from fuel [] = true
utf8_from zero (x ∷ xs) = false
utf8_from (suc fuel) (x ∷ xs) =
    let rest = utf8_from fuel (drop ((sequence x xs).1) (x ∷ xs)) in (sequence x xs).0 && rest

unfoldable pub is_utf8 : Bytes → Bool
unfolding utf8_from
is_utf8 xs = utf8_from (length xs) xs

lossy_from : ℕ → List ℕ → Bytes
unfolding sequence
lossy_from fuel [] = []
lossy_from zero (x ∷ xs) = []
lossy_from (suc fuel) (x ∷ xs) =
    let taken = (sequence x xs).1 in
    let rest = lossy_from fuel (drop taken (x ∷ xs)) in
    if (sequence x xs).0 then take taken (x ∷ xs) ++ rest else (0xEF ∷ 0xBF ∷ 0xBD ∷ []) ++ rest

-- `String::from_utf8_lossy`
unfoldable pub lossy : Bytes → Bytes
unfolding lossy_from
lossy xs = lossy_from (length xs) xs

abbrev pub to_ascii_lowercase : Bytes → Bytes
to_ascii_lowercase [] = []
to_ascii_lowercase (x ∷ xs) =
    (if leb b'A' x && leb x b'Z' then x + 32 else x) ∷ to_ascii_lowercase xs

abbrev pub to_ascii_uppercase : Bytes → Bytes
to_ascii_uppercase [] = []
to_ascii_uppercase (x ∷ xs) =
    (if leb b'a' x && leb x b'z' then x - 32 else x) ∷ to_ascii_uppercase xs

unfoldable pub eq_ignore_ascii_case : Bytes → Bytes → Bool
eq_ignore_ascii_case xs ys = to_ascii_lowercase xs == to_ascii_lowercase ys

-- Whether `x` stands in the bytes: `contains`, with a character.
unfoldable pub has_byte : ℕ → Bytes → Bool
has_byte x [] = false
has_byte x (y ∷ ys) = (x == y) || has_byte x ys
