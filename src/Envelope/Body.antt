-- ===== src/Envelope/Body.antt =====
-- envelope/body.rs: a delivery's value, with its payload located and its headers read on demand.
use ruststream_fred.Common.{ℕ, ◌-◌, [], ◌∷◌, Option, none, some, take, drop, is_some, if◌then◌else◌}
use ruststream_fred.Common.Map.{Map, get, remove}
use ruststream_fred.Common.Order.{◌==◌, bytes_ord}
use ruststream_fred.Server.Text.{Bytes, b, is_utf8}
use ruststream_fred.Server.Text.Decimal.{print}
use ruststream_fred.Envelope.Wire.{range}
use ruststream_fred.Envelope.Seal.{HeaderMaps, Location, bare, decoded, Envelope}

-- `enum Payload`
pub data Payload : Type 0 where
  whole : Payload
  part : ℕ → ℕ → Payload
  taken : Bytes → Payload

-- `Payload::of`
unfoldable pub payload_of : Location → Bytes → Payload
payload_of bare value = whole
payload_of (Location.within start end) value =
    if is_some (range start end value) then part start end else whole
payload_of (decoded payload) value = taken payload

-- `Payload::slice`
abbrev pub slice : Payload → Bytes → Bytes
slice whole value = value
slice (part start end) value = take (end - start) (drop start value)
slice (taken payload) value = payload

abbrev or_headers : {H : Type 0} → H → Option H → H
or_headers none_read none = none_read
or_headers none_read (some h) = h

-- `Content`: a field of a foreign entry.
pub data Content : Type 0 where
  text : Bytes → Content
  raw : Bytes → Content

-- `Content::from_vec`
abbrev pub content_of : Bytes → Content
content_of x = if is_utf8 x then text x else raw x

unfoldable pub contents : Map Bytes Bytes → Map Bytes Content
contents [] = []
contents ((name, value) ∷ fields) = (name, content_of value) ∷ contents fields

-- `Meta`
pub record Meta : Type 0 where
  pub delivery_count : ℕ
  pub idle_ms : ℕ

-- `Body`; the headers are read from it on demand.
pub record Body (H : Type 0) : Type 0 where
  pub value : Bytes
  pub payload : Payload
  pub envelope : Envelope H

-- `EntryBody`
pub record EntryBody (H : Type 0) : Type 0 where
  pub value : Bytes
  pub payload : Payload
  pub fields : Map Bytes Bytes
  pub meta : Option Meta
  pub envelope : Envelope H

-- The envelope's field, taken out of the others.
unfoldable pub take_field : Bytes → Map Bytes Bytes → Option Bytes × Map Bytes Bytes
take_field field ((name, value) ∷ []) =
    if name == field then (some value, []) else (none, (name, value) ∷ [])
take_field field fields = (get field fields, remove field fields)

module _ {H : Type 0} (m : HeaderMaps H) where
  -- `Body::open`
  abbrev pub open_body : Envelope H → Bytes → Body H
  open_body envelope value = record {
    value = value;
    payload = payload_of (envelope.locate value) value;
    envelope = envelope;
  }

  -- `Body::payload`
  abbrev pub body_payload : Body H → Bytes
  body_payload body = slice body.payload body.value

  abbrev pub headers_unless_whole : Payload → Option H → H
  headers_unless_whole whole read = m.empty
  headers_unless_whole _ read = or_headers m.empty read

  -- `Body::headers`
  abbrev pub body_headers : Body H → H
  body_headers body = headers_unless_whole body.payload (body.envelope.headers body.value)

  -- The JSON object that serde_json writes of a foreign entry's fields.
  module _ (json : Map Bytes Content → Bytes) where
    abbrev pub opened : Envelope H → Option Meta → Option Bytes × Map Bytes Bytes → EntryBody H
    opened envelope meta (none, fields) = record {
      value = json (contents fields);
      payload = whole;
      fields = [];
      meta = meta;
      envelope = envelope;
    }
    opened envelope meta (some value, fields) = record {
      value = value;
      payload = payload_of (envelope.locate_entry value) value;
      fields = fields;
      meta = meta;
      envelope = envelope;
    }

    -- `EntryBody::open`
    unfoldable pub open_entry : Envelope H → Map Bytes Bytes → Option Meta → EntryBody H
    open_entry envelope fields meta = opened envelope meta (take_field envelope.entry_field fields)

  -- `EntryBody::payload`
  abbrev pub entry_payload : EntryBody H → Bytes
  entry_payload body = slice body.payload body.value

  abbrev pub with_meta : Option Meta → H → H
  with_meta none h = h
  with_meta (some meta) h =
      m.insert (b "redis-idle-ms") (print meta.idle_ms)
        (m.insert (b "redis-delivery-count") (print meta.delivery_count) h)

  -- `EntryBody::headers`
  abbrev pub entry_headers : EntryBody H → H
  entry_headers body =
      with_meta body.meta
        (headers_unless_whole body.payload (body.envelope.entry_headers body.value body.fields))
