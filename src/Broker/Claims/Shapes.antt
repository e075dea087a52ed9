-- ===== src/Broker/Claims/Shapes.antt =====
-- The reply of one protocol is read as that of the other.
use ruststream_fred.Common.{◌%◌, ◌≡◌, refl, ap, arith, [], if◌then◌else◌}
use ruststream_fred.Common.Map.{Map}
use ruststream_fred.Server.Text.{Bytes}
use ruststream_fred.Broker.Claims.{
  array, map, Frames, no_frames, frame, Pairs, no_pairs, pair, Decoded, decoded, malformed,
  server_error, and_decoded, frame_bytes, field_pair, frame_count, with_field, collect_pairs,
  collect_chunks, decode_fields, decode_entries, is_named, stream_in_map, stream_in_array,
  decode_reply,
}

-- A map of streams as the array of pairs that RESP2 has.
abbrev pub resp2_pairs : Pairs → Frames
resp2_pairs no_pairs = no_frames
resp2_pairs (pair name value ps) =
    frame (array (frame name (frame value no_frames))) (resp2_pairs ps)

-- A map of fields as the flat array that the server sends.
abbrev pub flattened : Pairs → Frames
flattened no_pairs = no_frames
flattened (pair name value ps) = frame name (frame value (flattened ps))

same_streams :
    (key : Bytes) (ps : Pairs) → stream_in_map key ps ≡ stream_in_array key (resp2_pairs ps)
unfolding stream_in_map stream_in_array
same_streams key no_pairs = refl
same_streams key (pair name entries ps) =
    ap (λ rest. if is_named key (frame_bytes name) then decode_entries entries else rest)
      (same_streams key ps)

same_and :
    (d : Decoded (Map Bytes Bytes)) (f g : Map Bytes Bytes → Decoded (Map Bytes Bytes))
    → ((m : Map Bytes Bytes) → f m ≡ g m)
    → and_decoded d f ≡ and_decoded d g
same_and (decoded m) f g same = same m
same_and (malformed what) f g same = refl
same_and (server_error details) f g same = refl

same_fields :
    (ps : Pairs) (m : Map Bytes Bytes) → collect_pairs ps m ≡ collect_chunks (flattened ps) m
unfolding collect_pairs collect_chunks
same_fields no_pairs m = refl
same_fields (pair name value ps) m =
    same_and (with_field (field_pair name value) m) _ _ (λ m'. same_fields ps m')

flattened_even : (ps : Pairs) → frame_count (flattened ps) % 2 ≡ 0
flattened_even no_pairs = refl
flattened_even (pair name value ps) = omega (arith, flattened_even ps)

-- Whatever the frames, well formed or not, a reply that is a map of streams is decoded, or refused
-- with the same error, as the array of pairs of the other protocol; and the fields of an entry that
-- are a map as the flat array of names and values.
pub decode_reply_shapes :
    (key : Bytes) (streams fields : Pairs)
    → (decode_reply (map streams) key ≡ decode_reply (array (resp2_pairs streams)) key)
      × (decode_fields (map fields) ≡ decode_fields (array (flattened fields)))
unfolding decode_reply decode_fields
decode_reply_shapes key streams fields =
    (same_streams key streams, rw (flattened_even fields, decode_fields) (same_fields fields []))
