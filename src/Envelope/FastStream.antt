-- ===== src/Envelope/FastStream.antt =====
-- envelope/fast_stream.rs: the frame of faststream.
pub mod Laws
pub mod Frame
use ruststream_fred.Common.{
  ℕ, zero, suc, ◌+◌, ◌^◌, ◌&&◌, Bool, true, false, List, [], ◌∷◌, ◌++◌, Option, none, some, eqb,
  leb, ltb, length, if◌then◌else◌,
}
use ruststream_fred.Common.Order.{◌==◌, bytes_ord}
use ruststream_fred.Server.Text.{Bytes, b, is_utf8}
use ruststream_fred.Server.Text.Decimal.{print}
use ruststream_fred.Envelope.Wire.{
  ◌>>=◌, range, read_slice, u16_bytes, u32_bytes, read_u16, read_u32,
}
use ruststream_fred.Envelope.Seal.{
  HeaderMaps, Location, bare, Sealed, sealed, refused, SealError, encode, Envelope, with_defaults,
}

-- `IDENTITY`
abbrev pub identity : Bytes
identity = 137 ∷ 66 ∷ 73 ∷ 78 ∷ 13 ∷ 10 ∷ 26 ∷ 10 ∷ []

-- `HEADERS_START`
abbrev pub headers_start : ℕ
headers_start = 18

abbrev pub is_identity : Option Bytes → Bool
is_identity none = false
is_identity (some x) = x == identity

-- The match on what the offsets say.
abbrev pub offsets_at : Bytes → Option (ℕ × ℕ) → Option (ℕ × ℕ) → Option (ℕ × ℕ) → Location
offsets_at value (some (version, p)) (some (start, q)) (some (offset, r)) =
    if eqb version 1 && (leb headers_start start && (leb start offset && leb offset (length value)))
    then Location.within offset (length value)
    else bare
offsets_at value _ _ _ = bare

-- `Envelope::locate`
unfoldable pub locate : Bytes → Location
locate value =
    if is_identity (range 0 8 value)
    then offsets_at value (read_u16 value 8) (read_u32 value 10) (read_u32 value 14)
    else bare

-- `read_string`
unfoldable pub read_string : Bytes → ℕ → Option (Bytes × ℕ)
read_string bytes pos = do n ← read_u16 bytes pos; read_slice bytes n.1 n.0

abbrev pub too_long : Bytes → SealError
too_long what = encode (what ++ b " do not fit faststream's binary frame")

abbrev pub header_too_long : Bytes → ℕ → SealError
header_too_long name n =
    too_long (b "the header `" ++ name ++ b "`, " ++ print n ++ b " bytes long, does")

-- The header block's bytes behind its count.
unfoldable pub block_length : List (Bytes × Bytes) → ℕ
block_length [] = 0
block_length ((name, header) ∷ es) = 4 + length name + length header + block_length es

abbrev pub prefixed : Bytes → Sealed Bytes → Sealed Bytes
prefixed x (sealed rest) = sealed (u16_bytes (length x) ++ (x ++ rest))
prefixed x (refused e) = refused e

-- `write_string`, and what is written behind it.
unfoldable pub write_string : Bytes → Bytes → Sealed Bytes → Sealed Bytes
write_string name x rest =
    if leb (2 ^ 16) (length x) then refused (header_too_long name (length x)) else prefixed x rest

-- The names and values, and then the payload.
unfoldable pub write_strings : List (Bytes × Bytes) → Bytes → Sealed Bytes
write_strings [] payload = sealed payload
write_strings ((name, header) ∷ es) payload =
    write_string name name (write_string name header (write_strings es payload))

abbrev pub behind : Bytes → Sealed Bytes → Sealed Bytes
behind front (sealed rest) = sealed (front ++ rest)
behind front (refused e) = refused e

-- What stands in front of the names and values.
unfoldable pub preamble : ℕ → ℕ → Bytes
preamble data_start count =
    identity
    ++ (u16_bytes 1 ++ (u32_bytes headers_start ++ (u32_bytes data_start ++ u16_bytes count)))

module _ {H : Type 0} (m : HeaderMaps H) where
  abbrev pub text_or_none : Bytes → Option Bytes
  text_or_none x = if is_utf8 x then some x else none

  -- The loop of `headers`.
  unfoldable pub read_strings : ℕ → Bytes → ℕ → H → Option H
  read_strings zero block pos h = some h
  read_strings (suc count) block pos h = do
    read_name ← read_string block pos
    name ← text_or_none read_name.0
    header ← read_string block read_name.1
    read_strings count block header.1 (m.insert name header.0 h)

  -- `Envelope::headers`
  unfoldable pub headers : Bytes → Option H
  headers value = do
    start ← read_u32 value 10
    end ← read_u32 value start.1
    block ← range start.0 end.0 value
    count ← read_u16 block 0
    read_strings count.0 block count.1 m.empty

  -- `Envelope::seal`
  unfoldable pub seal : Bytes → H → Bytes → Sealed Bytes
  seal payload h value =
      let size = block_length (m.entries h) in
      let data_start = headers_start + 2 + size in
      if leb (2 ^ 16) (m.len h)
      then refused (too_long (print (m.len h) ++ b " headers"))
      else if leb (2 ^ 32) data_start
      then refused (too_long (b "a header block of " ++ print size ++ b " bytes"))
      else behind value
          (behind (preamble data_start (m.len h)) (write_strings (m.entries h) payload))

  -- `impl Envelope for FastStream`
  abbrev pub fast_stream : Envelope H
  fast_stream = with_defaults locate headers seal (b "__data__")
