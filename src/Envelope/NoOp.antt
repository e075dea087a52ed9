-- ===== src/Envelope/NoOp.antt =====
-- envelope/noop.rs: the value is the payload.
use ruststream_fred.Common.{List, [], ◌∷◌, ◌++◌, some}
use ruststream_fred.Server.Text.{Bytes}
use ruststream_fred.Envelope.Seal.{
  HeaderMaps, bare, Sealed, sealed, refused, header_not_carried, payload_field, Envelope,
}

-- `refuse_headers`, and then the message
abbrev pub refuse_headers : {A : Type 0} → List (Bytes × Bytes) → A → Sealed A
refuse_headers [] a = sealed a
refuse_headers ((name, header) ∷ es) a = refused (header_not_carried name)

module _ {H : Type 0} (m : HeaderMaps H) where
  -- `impl Envelope for NoOp`
  abbrev pub no_op : Envelope H
  no_op = record {
    locate = λ value. bare;
    headers = λ value. some m.empty;
    seal = λ payload h value. refuse_headers (m.entries h) (value ++ payload);
    entry_field = payload_field;
    seal_entry = λ payload h. refuse_headers (m.entries h) ((payload_field, payload) ∷ []);
    locate_entry = λ value. bare;
    entry_headers = λ value fields. some m.empty;
  }
