-- ===== src/Broker/Claims.antt =====
-- claim.rs: the reply of a claiming `XREADGROUP`, decoded from the frame of either protocol.
pub mod Shapes
use ruststream_fred.Common.{
  ℕ, zero, suc, ◌%◌, Bool, false, List, [], ◌∷◌, ◌++◌, Option, none, some, if◌then◌else◌,
}
use ruststream_fred.Common.Int.{ℤ, pos, negsuc}
use ruststream_fred.Common.Order.{◌==◌, bytes_ord}
use ruststream_fred.Common.Map.{Map, insert}
use ruststream_fred.Server.Text.{Bytes, b, is_utf8, lossy}
use ruststream_fred.Server.Text.Decimal.{print, parse_u64}

-- `fred::types::Resp3Frame`, in the forms that are told apart here. A map's pairs stand in the order
-- that the code visits them in.
mutual
  pub data Frame : Type 0 where
    null other : Frame
    simple_error blob_error : Bytes → Frame
    blob_string verbatim_string simple_string chunked_string : Bytes → Frame
    number : ℤ → Frame
    array : Frames → Frame
    map : Pairs → Frame

  pub data Frames : Type 0 where
    no_frames : Frames
    frame : Frame → Frames → Frames

  pub data Pairs : Type 0 where
    no_pairs : Pairs
    pair : Frame → Frame → Pairs → Pairs

pub record ClaimedEntry : Type 0 where
  pub id : Bytes
  pub fields : Map Bytes Bytes
  pub idle_ms : ℕ
  pub delivery_count : ℕ

-- A `Result` with the two errors, by what they are made of.
pub data Decoded (A : Type 0) : Type 0 where
  decoded : A → Decoded A
  malformed server_error : Bytes → Decoded A

abbrev pub and_decoded : {A B : Type 0} → Decoded A → (A → Decoded B) → Decoded B
and_decoded (decoded a) f = f a
and_decoded (malformed what) f = malformed what
and_decoded (server_error details) f = server_error details

abbrev pub ok_or : {A : Type 0} → Bytes → Option A → Decoded A
ok_or what none = malformed what
ok_or what (some a) = decoded a

-- `frame_bytes`
abbrev pub frame_bytes : Frame → Option Bytes
frame_bytes (blob_string data') = some data'
frame_bytes (verbatim_string data') = some data'
frame_bytes (simple_string data') = some data'
frame_bytes (chunked_string data') = some data'
frame_bytes _ = none

-- `frame_bytes(..).and_then(|raw| str::from_utf8(raw).ok())`
abbrev pub text_in : Option Bytes → Option Bytes
text_in none = none
text_in (some raw) = if is_utf8 raw then some raw else none

abbrev pub parsed : Option Bytes → Option ℕ
parsed none = none
parsed (some text) = parse_u64 text

-- `frame_u64`
abbrev pub frame_u64 : Frame → Option ℕ
frame_u64 (number (pos n)) = some n
frame_u64 (number (negsuc n)) = none
frame_u64 f = parsed (text_in (frame_bytes f))

-- `field_pair`
unfoldable pub field_pair : Frame → Frame → Decoded (Bytes × Bytes)
field_pair name value =
    and_decoded (ok_or (b "a field name is not a string") (text_in (frame_bytes name))) (λ n.
      and_decoded (ok_or (b "a field value is not a string") (frame_bytes value))
        (λ v. decoded (n, v)))

abbrev pub frame_count : Frames → ℕ
frame_count no_frames = 0
frame_count (frame f fs) = suc (frame_count fs)

-- The map that the pairs are collected into; a name that comes again takes the later value.
abbrev pub with_field : Decoded (Bytes × Bytes) → Map Bytes Bytes → Decoded (Map Bytes Bytes)
with_field (decoded (name, value)) m = decoded (insert name value m)
with_field (malformed what) m = malformed what
with_field (server_error details) m = server_error details

unfoldable pub collect_pairs : Pairs → Map Bytes Bytes → Decoded (Map Bytes Bytes)
collect_pairs no_pairs m = decoded m
collect_pairs (pair name value ps) m =
    and_decoded (with_field (field_pair name value) m) (λ m'. collect_pairs ps m')

-- The same over chunks of two.
unfoldable pub collect_chunks : Frames → Map Bytes Bytes → Decoded (Map Bytes Bytes)
collect_chunks (frame name (frame value fs)) m =
    and_decoded (with_field (field_pair name value) m) (λ m'. collect_chunks fs m')
collect_chunks _ m = decoded m

-- `decode_fields`
unfoldable pub decode_fields : Frame → Decoded (Map Bytes Bytes)
decode_fields (array fs) = elim (frame_count fs % 2) [
  | zero ↦ collect_chunks fs []
  | suc n ↦ malformed (b "the fields of an entry are an odd-length array, so one name has no value")
]
decode_fields (map ps) = collect_pairs ps []
decode_fields _ = malformed (b "the fields of an entry are neither an array nor a map")

abbrev pub entry_of : Frame → Frame → Frame → Frame → Decoded ClaimedEntry
entry_of id fields idle count =
    and_decoded (ok_or (b "an entry id is not a string") (text_in (frame_bytes id))) (λ i.
      and_decoded (decode_fields fields) (λ f.
        and_decoded (ok_or (b "an entry idle time is not a number") (frame_u64 idle)) (λ t.
          and_decoded (ok_or (b "an entry delivery count is not a number") (frame_u64 count))
            (λ n. decoded (record { id = i; fields = f; idle_ms = t; delivery_count = n })))))

abbrev pub four_elements : ℕ → Bytes
four_elements n =
    b
      "an entry of a CLAIM read has four elements [id, fields, idle-ms, delivery-count]; this one has "
    ++ print n

-- `decode_entry`
unfoldable pub decode_entry : Frame → Decoded ClaimedEntry
decode_entry (array (frame id (frame fields (frame idle (frame count no_frames))))) =
    entry_of id fields idle count
decode_entry (array fs) = malformed (four_elements (frame_count fs))
decode_entry _ = malformed (b "an entry is not an array")

unfoldable pub decode_each : Frames → Decoded (List ClaimedEntry)
decode_each no_frames = decoded []
decode_each (frame f fs) =
    and_decoded (decode_entry f)
      (λ entry. and_decoded (decode_each fs) (λ entries. decoded (entry ∷ entries)))

-- `decode_entries`
unfoldable pub decode_entries : Frame → Decoded (List ClaimedEntry)
decode_entries null = decoded []
decode_entries (array fs) = decode_each fs
decode_entries _ = malformed (b "the entries of a stream are not an array")

abbrev pub is_named : Bytes → Option Bytes → Bool
is_named key none = false
is_named key (some name) = name == key

-- The loop over a map of streams.
unfoldable pub stream_in_map : Bytes → Pairs → Decoded (List ClaimedEntry)
stream_in_map key no_pairs = decoded []
stream_in_map key (pair name entries ps) =
    let rest = stream_in_map key ps in
    if is_named key (frame_bytes name) then decode_entries entries else rest

abbrev pub not_pair : Bytes
not_pair = b "a stream of the reply is not a [key, entries] pair"

-- The loop over an array of streams.
unfoldable pub stream_in_array : Bytes → Frames → Decoded (List ClaimedEntry)
stream_in_array key no_frames = decoded []
stream_in_array key (frame (array (frame name (frame entries no_frames))) fs) =
    let rest = stream_in_array key fs in
    if is_named key (frame_bytes name) then decode_entries entries else rest
stream_in_array key (frame _ fs) = malformed not_pair

-- `decode_reply`
unfoldable pub decode_reply : Frame → Bytes → Decoded (List ClaimedEntry)
decode_reply null key = decoded []
decode_reply (simple_error data') key = server_error data'
decode_reply (blob_error data') key = server_error (lossy data')
decode_reply (map ps) key = stream_in_map key ps
decode_reply (array fs) key = stream_in_array key fs
decode_reply _ key = malformed (b "the reply is neither a map nor an array of streams")
