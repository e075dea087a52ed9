-- ===== src/Broker/Tests/Claimed.antt =====
-- The reply of a claiming read, in the shapes of both protocols.
use ruststream_fred.Common.{◌≡◌, refl, [], ◌∷◌}
use ruststream_fred.Common.Int.{pos, negsuc}
use ruststream_fred.Common.Map.{insert}
use ruststream_fred.Server.Text.{b, is_utf8}
use ruststream_fred.Server.Text.Decimal.{parse_u64}
use ruststream_fred.Broker.Claims.{
  Frame, blob_string, number, array, map, no_frames, frame, Pairs, no_pairs, pair, decoded,
  malformed, field_pair, collect_chunks, decode_fields, decode_entry, decode_each, decode_entries,
  stream_in_map, decode_reply,
}
use ruststream_fred.Broker.Claims.Shapes.{resp2_pairs, flattened, decode_reply_shapes}

abbrev body_field : Pairs
body_field = pair (blob_string (b "body")) (blob_string (b "x")) no_pairs

-- `[id, [name, value], idle, count]`, with the idle time as the string a RESP2 client may see.
abbrev claimed : Frame
claimed = array (
    frame (blob_string (b "1-0")) (
      frame (array (flattened body_field))
        (frame (blob_string (b "300")) (frame (number (pos 2)) no_frames))))

abbrev orders : Pairs
orders = pair (blob_string (b "orders")) (array (frame claimed no_frames)) no_pairs

claimed_read :
    decode_reply (map orders) (b "orders")
    ≡ decoded (
        record { id = b "1-0"; fields = (b "body", b "x") ∷ []; idle_ms = 300; delivery_count = 2 }
        ∷ [])
unfolding decode_reply stream_in_map decode_entries decode_each decode_entry decode_fields
    collect_chunks field_pair insert is_utf8 parse_u64
claimed_read = refl

negative_idle_refused :
    decode_entry (
      array (
        frame
          (blob_string (b "1-0"))
          (frame (array no_frames) (frame (number (negsuc 0)) (frame (number (pos 1)) no_frames)))))
    ≡ malformed (b "an entry idle time is not a number")
unfolding decode_entry decode_fields collect_chunks is_utf8
negative_idle_refused = refl

decode_reply_shapes_example :
    (decode_reply (map orders) (b "orders")
      ≡ decode_reply (array (resp2_pairs orders)) (b "orders"))
    × (decode_fields (map body_field) ≡ decode_fields (array (flattened body_field)))
decode_reply_shapes_example = decode_reply_shapes (b "orders") orders body_field
