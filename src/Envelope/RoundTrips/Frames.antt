-- ===== src/Envelope/RoundTrips/Frames.antt =====
-- envelope/rust_stream.rs, fast_stream.rs and noop.rs: each built-in envelope reads back.
use ruststream_fred.Common.{
  ◌+◌, ◌^◌, ◌<◌, ◌≡◌, refl, sym, ap, ◌∙◌, arith, Bool, true, false, not, ◌&&◌, List, [], ◌∷◌,
  length, is_nil, if◌then◌else◌,
}
use ruststream_fred.Server.Text.{Bytes}
use ruststream_fred.Envelope.Seal.{HeaderMaps, HeaderMapLaws, bare, Sealed, sealed, refused}
use ruststream_fred.Envelope.Body.{open_body, body_payload, body_headers}
use ruststream_fred.Envelope.NoOp.{no_op, refuse_headers}
use ruststream_fred.Envelope.RustStream.{is_marked, locate, framed, seal, rust_stream}
use ruststream_fred.Envelope.RustStream.Laws.{
  FitPrefixes, empty_headers, framed_located, framed_headers, payload_there, headers_end,
}
use ruststream_fred.Envelope.RoundTrips.{ReadsBack, FitsNone, framed_back, bare_back}

abbrev value_in : Sealed Bytes → Bytes
value_in (sealed value) = value
value_in (refused e) = []

pub none_refused :
    (es : List (Bytes × Bytes)) (payload value : Bytes)
    → refuse_headers es payload ≡ sealed value
    → (payload ≡ value) × (is_nil es ≡ true)
none_refused [] payload value same = (ap value_in same, refl)
none_refused ((name, header) ∷ es) payload value same = ground (arith, same)

module _ {H : Type 0} (m : HeaderMaps H) (laws : HeaderMapLaws m) where
  abbrev pub FitsFrame : Bytes → H → Type 0
  FitsFrame payload h = FitPrefixes (m.entries h) × (length (m.entries h) + 1 < 2 ^ 32)

  unmarked_bare : (value : Bytes) → is_marked value ≡ false → locate value ≡ bare
  unfolding locate
  unmarked_bare value e = rw e refl

  frame_back :
      (payload : Bytes) (h : H)
      → FitsFrame payload h
      → length (framed m payload h) < 2 ^ 64
      → (body_payload m (open_body m (rust_stream m) (framed m payload h)) ≡ payload)
        × (body_headers m (open_body m (rust_stream m) (framed m payload h)) ≡ h)
  frame_back payload h (fits, few) small =
      framed_back m (rust_stream m) (framed m payload h) payload (headers_end (m.entries h) 28) h
        (framed_located m laws payload h fits few small)
        (framed_headers m laws payload h fits few small)
        (payload_there m laws payload h fits few small)

  -- Whether a message has headers, and whether its payload looks like a frame.
  chosen_back :
      (empty marked : Bool) (payload : Bytes) (h : H)
      → m.is_empty h ≡ empty
      → is_marked payload ≡ marked
      → FitsFrame payload h
      → length (if empty && not marked then payload else framed m payload h) < 2 ^ 64
      → (body_payload m (
            open_body m
              (rust_stream m)
              (if empty && not marked then payload else framed m payload h))
          ≡ payload)
        × (body_headers m (
              open_body m
                (rust_stream m)
                (if empty && not marked then payload else framed m payload h))
            ≡ h)
  chosen_back true false payload h e k fits small =
      bare_back m (rust_stream m) payload h (unmarked_bare payload k) (empty_headers m laws h e)
  chosen_back true true payload h e k fits small = frame_back payload h fits small
  chosen_back false marked payload h e k fits small = frame_back payload h fits small

  -- rust_stream
  pub rust_stream-ReadsBack : ReadsBack m (rust_stream m) FitsFrame
  unfolding seal
  rust_stream-ReadsBack = record {
    back = λ payload h value fits same small.
        let written : (if m.is_empty h && not (is_marked payload)
              then payload
              else framed m payload h)
            ≡ value =
          ap value_in same in
        rw (sym written) (
          chosen_back (m.is_empty h) (is_marked payload) payload h refl refl fits
            (rw written small));
  }

  -- no_op
  pub no_op-ReadsBack : ReadsBack m (no_op m) FitsNone
  no_op-ReadsBack = record {
    back = λ payload h value fits same small.
        let (written, bare_headers) = none_refused (m.entries h) payload value same in
        rw (sym written) (
          bare_back m (no_op m) payload h refl
            (empty_headers m laws h (laws.none_left h ∙ bare_headers)));
  }

  -- A value that the crate's own envelope seals opens with the payload and the headers it was
  -- sealed with, framed or bare, also where the payload looks like a frame: if no name or value of
  -- a header takes 2^32 bytes, there are fewer than 2^32 - 1 headers, and the value is shorter than
  -- 2^64 bytes. The headers are any map that is built again from its headers, in the order it gives
  -- them.
  pub open_body-rust_stream :
      (payload : Bytes) (h : H) (value : Bytes)
      → FitsFrame payload h
      → (rust_stream m).seal payload h [] ≡ sealed value
      → length value < 2 ^ 64
      → (body_payload m (open_body m (rust_stream m) value) ≡ payload)
        × (body_headers m (open_body m (rust_stream m) value) ≡ h)
  open_body-rust_stream payload h value fits same small =
      rust_stream-ReadsBack.back payload h value fits same small

  -- no_op
  pub open_body-no_op :
      (payload : Bytes) (h : H) (value : Bytes)
      → (no_op m).seal payload h [] ≡ sealed value
      → length value < 2 ^ 64
      → (body_payload m (open_body m (no_op m) value) ≡ payload)
        × (body_headers m (open_body m (no_op m) value) ≡ h)
  open_body-no_op payload h value same small = no_op-ReadsBack.back payload h value tt same small
