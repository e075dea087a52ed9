-- ===== src/Envelope/Framing.antt =====
-- envelope/framing.rs: an envelope as the broker's route table holds it.
use ruststream_fred.Common.{[], Option, none, some}
use ruststream_fred.Common.Map.{Map}
use ruststream_fred.Server.Text.{Bytes}
use ruststream_fred.Envelope.Seal.{
  HeaderMaps, Sealed, sealed, refused, SealError, EntryFields, Envelope,
}
use ruststream_fred.Envelope.RustStream.{rust_stream}
use ruststream_fred.Envelope.FastStream.{fast_stream}
use ruststream_fred.Envelope.NoOp.{no_op}
use ruststream_fred.Envelope.Body.{
  Content, open_body, body_payload, body_headers, open_entry, entry_payload, entry_headers,
}

-- `enum Framing`; `unrouted` has the name of the envelope's type.
pub data Framing : Type 0 where
  own : Framing
  ruststream : Framing
  faststream : Framing
  noop : Framing
  framed_json : Framing
  framed_cbor : Framing
  framed_msgpack : Framing
  unrouted : Bytes → Framing

-- What a publish is refused with: `RedisError::Seal`, or `RedisError::Unrouted`.
pub data PublishError : Type 0 where
  not_sealed : Bytes → SealError → PublishError
  not_routed : Bytes → Bytes → PublishError

pub data Outcome (A : Type 0) : Type 0 where
  done : A → Outcome A
  failed : PublishError → Outcome A

abbrev pub for_destination : {A : Type 0} → Bytes → Sealed A → Outcome A
for_destination destination (sealed a) = done a
for_destination destination (refused e) = failed (not_sealed destination e)

-- The envelopes that a codec makes, and the writer of JSON objects: code outside this crate.
pub record Codecs (H : Type 0) : Type 0 where
  pub json_envelope : Envelope H
  pub cbor_envelope : Envelope H
  pub msgpack_envelope : Envelope H
  pub to_json : Map Bytes Content → Bytes

module _ {H : Type 0} (m : HeaderMaps H) (c : Codecs H) where
  -- The envelope that `dispatch!` finds.
  unfoldable pub envelope_of : Envelope H → Framing → Option (Envelope H)
  envelope_of broker own = some broker
  envelope_of broker ruststream = some (rust_stream m)
  envelope_of broker faststream = some (fast_stream m)
  envelope_of broker noop = some (no_op m)
  envelope_of broker framed_json = some c.json_envelope
  envelope_of broker framed_cbor = some c.cbor_envelope
  envelope_of broker framed_msgpack = some c.msgpack_envelope
  envelope_of broker (unrouted name) = none

  abbrev pub unrouted_name : Framing → Bytes
  unrouted_name (unrouted name) = name
  unrouted_name _ = []

  abbrev pub sealed_by : Option (Envelope H) → Framing → Bytes → Bytes → H → Outcome Bytes
  sealed_by none f destination payload h = failed (not_routed destination (unrouted_name f))
  sealed_by (some e) f destination payload h = for_destination destination (e.seal payload h [])

  -- `Framing::seal`
  unfoldable pub seal : Framing → Envelope H → Bytes → Bytes → H → Outcome Bytes
  seal f broker destination payload h = sealed_by (envelope_of broker f) f destination payload h

  abbrev pub entry_sealed_by :
      Option (Envelope H) → Framing → Bytes → Bytes → H → Outcome EntryFields
  entry_sealed_by none f destination payload h = failed (not_routed destination (unrouted_name f))
  entry_sealed_by (some e) f destination payload h =
      for_destination destination (e.seal_entry payload h)

  -- `Framing::seal_entry`
  unfoldable pub seal_entry : Framing → Envelope H → Bytes → Bytes → H → Outcome EntryFields
  seal_entry f broker destination payload h =
      entry_sealed_by (envelope_of broker f) f destination payload h

  abbrev pub opened_by : Option (Envelope H) → Bytes → Bytes × H
  opened_by none value = (value, m.empty)
  opened_by (some e) value =
      (body_payload m (open_body m e value), body_headers m (open_body m e value))

  -- `Framing::open`
  unfoldable pub open_value : Framing → Envelope H → Bytes → Bytes × H
  open_value f broker value = opened_by (envelope_of broker f) value

  abbrev pub or_no_op : Option (Envelope H) → Envelope H
  or_no_op none = no_op m
  or_no_op (some e) = e

  -- `Framing::open_entry`
  unfoldable pub open_fields : Framing → Envelope H → Map Bytes Bytes → Bytes × H
  open_fields f broker fields =
      let body = open_entry m c.to_json (or_no_op (envelope_of broker f)) fields none in
      (entry_payload m body, entry_headers m body)
