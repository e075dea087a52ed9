-- ===== src/Envelope/RustStream.antt =====
-- envelope/rust_stream.rs: the crate's own layout.
pub mod Laws
use ruststream_fred.Common.{
  ℕ, zero, suc, ◌+◌, ◌-◌, ◌^◌, ◌&&◌, Bool, true, false, not, List, [], ◌∷◌, ◌++◌, Option, none,
  some, eqb, min, length, drop, if◌then◌else◌,
}
use ruststream_fred.Common.Map.{Map}
use ruststream_fred.Common.Order.{◌==◌, bytes_ord}
use ruststream_fred.Server.Text.{Bytes, b, is_utf8}
use ruststream_fred.Envelope.Wire.{◌>>=◌, range, read_slice, u32_bytes, read_u32}
use ruststream_fred.Envelope.Seal.{
  HeaderMaps, Location, bare, Sealed, sealed, EntryFields, payload_field, Envelope,
}

-- `MARKER_HEADER`
abbrev pub marker_header : Bytes
marker_header =
    0 ∷ 0 ∷ 0 ∷ 16 ∷ 114 ∷ 117 ∷ 115 ∷ 116 ∷ 115 ∷ 116 ∷ 114 ∷ 101 ∷ 97 ∷ 109 ∷ 45 ∷ 102 ∷ 114 ∷ 97
    ∷ 109 ∷ 101 ∷ 0 ∷ 0 ∷ 0 ∷ 0 ∷ []

-- `MARKED`
abbrev pub marked : ℕ
marked = 28

abbrev is_that : Bytes → Option Bytes → Bool
is_that x none = false
is_that x (some y) = x == y

unfoldable pub is_marked : Bytes → Bool
is_marked bytes = is_that marker_header (range 4 marked bytes)

unfoldable pub len_prefix : ℕ → Bytes
len_prefix n = u32_bytes (min n 4294967295)

-- `checked_sub(1)`
abbrev pub less_one : ℕ → Option ℕ
less_one zero = none
less_one (suc n) = some n

-- `skip`
unfoldable pub skip : Bytes → ℕ → ℕ → Option ℕ
skip bytes pos len = do r ← read_slice bytes pos len; some r.1

-- The loops of `locate`: for each header its name, then its value.
unfoldable pub skip_prefixed : Bytes → ℕ → Option ℕ
skip_prefixed bytes pos = do r ← read_u32 bytes pos; skip bytes r.1 r.0

unfoldable pub skip_headers : ℕ → Bytes → ℕ → Option ℕ
skip_headers zero bytes pos = some pos
skip_headers (suc count) bytes pos = do
  past_name ← skip_prefixed bytes pos
  past_value ← skip_prefixed bytes past_name
  skip_headers count bytes past_value

-- The number of headers behind the marker.
unfoldable pub frame_count : Bytes → Option ℕ
frame_count bytes = do r ← read_u32 bytes 0; less_one r.0

abbrev pub located : Bytes → Option ℕ → Location
located bytes none = bare
located bytes (some pos) = Location.within pos (length bytes)

-- `Envelope::locate`
unfoldable pub locate : Bytes → Location
locate value =
    if is_marked value
    then located value (frame_count value >>= λ count. skip_headers count value marked)
    else bare

-- The headers, each after its lengths, and then `rest`.
unfoldable pub header_bytes : List (Bytes × Bytes) → Bytes → Bytes
header_bytes [] rest = rest
header_bytes ((name, header) ∷ es) rest =
    len_prefix (length name)
    ++ (name ++ (len_prefix (length header) ++ (header ++ header_bytes es rest)))

-- `strip_prefix("h:")`
abbrev pub strip_header_prefix : Bytes → Option Bytes
strip_header_prefix (x ∷ y ∷ name) = if eqb x 104 && eqb y 58 then some name else none
strip_header_prefix _ = none

module _ {H : Type 0} (m : HeaderMaps H) where
  abbrev pub text_or_none : Bytes → Option Bytes
  text_or_none x = if is_utf8 x then some x else none

  -- `read_headers`
  unfoldable pub read_headers : ℕ → Bytes → ℕ → H → Option (H × ℕ)
  read_headers zero bytes pos h = some (h, pos)
  read_headers (suc count) bytes pos h = do
    n ← read_u32 bytes pos
    read_name ← read_slice bytes n.1 n.0
    name ← text_or_none read_name.0
    l ← read_u32 bytes read_name.1
    value ← read_slice bytes l.1 l.0
    read_headers count bytes value.1 (m.insert name value.0 h)

  -- `Envelope::headers`
  unfoldable pub headers : Bytes → Option H
  headers value = do
    count ← frame_count value
    r ← read_headers count value marked m.empty
    some r.0

  -- A frame: the marked count, the marker, the headers and the payload.
  unfoldable pub framed : Bytes → H → Bytes
  framed payload h =
      len_prefix (min (m.len h + 1) (2 ^ 64 - 1))
      ++ (marker_header ++ header_bytes (m.entries h) payload)

  -- `Envelope::seal`
  unfoldable pub seal : Bytes → H → Bytes → Sealed Bytes
  seal payload h value =
      sealed
        (value ++ (if m.is_empty h && not (is_marked payload) then payload else framed payload h))

  unfoldable pub header_fields : List (Bytes × Bytes) → EntryFields
  header_fields [] = []
  header_fields ((name, header) ∷ es) = (104 ∷ 58 ∷ name, header) ∷ header_fields es

  -- `Envelope::seal_entry`
  unfoldable pub seal_entry : Bytes → H → Sealed EntryFields
  seal_entry payload h = sealed ((payload_field, payload) ∷ header_fields (m.entries h))

  abbrev pub insert_field : Option Bytes → Bytes → H → H
  insert_field none header h = h
  insert_field (some name) header h = m.insert name header h

  -- The loop of `entry_headers`.
  unfoldable pub collect_headers : Map Bytes Bytes → H → H
  collect_headers [] h = h
  collect_headers ((key, header) ∷ fields) h =
      collect_headers fields (insert_field (strip_header_prefix key) header h)

  -- `impl Envelope for RustStream`
  abbrev pub rust_stream : Envelope H
  rust_stream = record {
    locate = locate;
    headers = headers;
    seal = seal;
    entry_field = payload_field;
    seal_entry = seal_entry;
    locate_entry = λ value. Location.within 0 (length value);
    entry_headers = λ value fields. some (collect_headers fields m.empty);
  }

  abbrev pub own_start : Bool → ℕ × ℕ → Option (ℕ × ℕ)
  own_start false r = some r
  own_start true (count, pos) = less_one count >>= λ n. some (n, marked)

  -- `unframe_own`
  unfoldable pub unframe_own : Bytes → Option (Bytes × H)
  unframe_own bytes = do
    r ← read_u32 bytes 0
    start ← own_start (is_marked bytes) r
    read ← read_headers start.0 bytes start.1 m.empty
    some (drop read.1 bytes, read.0)
