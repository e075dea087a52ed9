-- ===== src/Envelope/RoundTrips/Framings.antt =====
-- envelope/framing.rs: what the default publisher writes, its subscription reads back.
use ruststream_fred.Common.{
  ◌^◌, ◌<◌, ◌≡◌, refl, sym, ap, ◌∙◌, arith, true, false, List, [], ◌∷◌, some, length, take, is_nil,
}
use ruststream_fred.Server.Text.{Bytes}
use ruststream_fred.Envelope.Seal.{
  HeaderMaps, HeaderMapLaws, Sealed, sealed, refused, SealError, Envelope,
}
use ruststream_fred.Envelope.RustStream.{rust_stream}
use ruststream_fred.Envelope.FastStream.{fast_stream, identity}
use ruststream_fred.Envelope.NoOp.{no_op, refuse_headers}
use ruststream_fred.Envelope.Framing.{
  Framing, Codecs, envelope_of, Outcome, done, failed, not_routed, for_destination, seal,
  open_value,
}
use ruststream_fred.Envelope.RoundTrips.{ReadsBack, FitsNone}
use ruststream_fred.Envelope.RoundTrips.Frames.{
  FitsFrame, rust_stream-ReadsBack, no_op-ReadsBack, none_refused,
}
use ruststream_fred.Envelope.RoundTrips.FastFrames.{fast_stream-ReadsBack, sealed_identity}

for_destination_sealed :
    (destination : Bytes) (s : Sealed Bytes) (value : Bytes)
    → for_destination destination s ≡ done value
    → s ≡ sealed value
for_destination_sealed destination (sealed v) value same = ground (arith, same)
for_destination_sealed destination (refused e) value same = ground (arith, same)

module _ {H : Type 0} (m : HeaderMaps H) (laws : HeaderMapLaws m) (c : Codecs H) where
  routed_back :
      (f : Framing) (broker e : Envelope H) (Fits : Bytes → H → Type 0)
      → envelope_of m c broker f ≡ some e
      → ReadsBack m e Fits
      → (destination payload : Bytes) (h : H) (value : Bytes) → Fits payload h
      → seal m c f broker destination payload h ≡ done value
      → length value < 2 ^ 64
      → open_value m c f broker value ≡ (payload, h)
  unfolding seal open_value
  routed_back f broker e Fits found reads destination payload h value fits same small =
      let written = for_destination_sealed destination _ value (rw found at same) in
      let (payload_back, headers_back) = reads.back payload h value fits written small in
      rw (found, payload_back, headers_back) refl

  -- The crate's own frame is given headers that fit it; the others refuse what they cannot hold,
  -- and an envelope that no framing names is refused whatever it is given.
  abbrev pub Carries : Framing → Bytes → H → Type 0
  Carries Framing.ruststream payload h = FitsFrame m laws payload h
  Carries _ payload h = Unit

  abbrev pub bytes_in : Outcome Bytes → Bytes
  bytes_in (done value) = value
  bytes_in (failed e) = []

  -- What a publish over a framing comes to, by the format.
  abbrev pub IsRouted : Framing → Envelope H → Bytes → Bytes → H → Outcome Bytes → Type 0
  IsRouted Framing.ruststream broker destination payload h (done value) =
      open_value m c Framing.ruststream broker value ≡ (payload, h)
  IsRouted Framing.ruststream broker destination payload h (failed e) = false ≡ true
  IsRouted Framing.faststream broker destination payload h (done value) =
      (take 8 value ≡ identity) × (open_value m c Framing.faststream broker value ≡ (payload, h))
  IsRouted Framing.faststream broker destination payload h (failed e) = Unit
  IsRouted Framing.noop broker destination payload h (done value) =
      (value ≡ payload)
      × ((m.is_empty h ≡ true) × (open_value m c Framing.noop broker value ≡ (payload, h)))
  IsRouted Framing.noop broker destination payload h (failed e) = m.is_empty h ≡ false
  IsRouted (Framing.unrouted name) broker destination payload h (done value) = false ≡ true
  IsRouted (Framing.unrouted name) broker destination payload h (failed e) =
      e ≡ not_routed destination name
  IsRouted Framing.own broker destination payload h o =
      o ≡ for_destination destination (broker.seal payload h [])
  IsRouted Framing.framed_json broker destination payload h o =
      o ≡ for_destination destination (c.json_envelope.seal payload h [])
  IsRouted Framing.framed_cbor broker destination payload h o =
      o ≡ for_destination destination (c.cbor_envelope.seal payload h [])
  IsRouted Framing.framed_msgpack broker destination payload h o =
      o ≡ for_destination destination (c.msgpack_envelope.seal payload h [])

  module _ (broker : Envelope H) (destination payload : Bytes) (h : H) where
    faststream-IsRouted :
        (s : Sealed Bytes)
        → (fast_stream m).seal payload h [] ≡ s
        → length (bytes_in (for_destination destination s)) < 2 ^ 64
        → IsRouted Framing.faststream broker destination payload h (for_destination destination s)
    unfolding seal envelope_of
    faststream-IsRouted (sealed value) same small = (
      sealed_identity m laws payload h value same,
      routed_back Framing.faststream broker (fast_stream m) FitsNone refl
          (fast_stream-ReadsBack m laws) destination payload h value tt
          (ap (λ t. for_destination destination t) same) small,
    )
    faststream-IsRouted (refused e) same small = tt

    noop_refused :
        (es : List (Bytes × Bytes)) (e : SealError)
        → refuse_headers es payload ≡ refused e
        → is_nil es ≡ false
    noop_refused [] e same = ground (arith, same)
    noop_refused (x ∷ es) e same = refl

    noop-IsRouted :
        (s : Sealed Bytes)
        → (no_op m).seal payload h [] ≡ s
        → length (bytes_in (for_destination destination s)) < 2 ^ 64
        → IsRouted Framing.noop broker destination payload h (for_destination destination s)
    unfolding seal envelope_of
    noop-IsRouted (sealed value) same small =
        let (written, bare_headers) = none_refused (m.entries h) payload value same in
        (
          sym written,
          (
            laws.none_left h ∙ bare_headers,
            routed_back Framing.noop broker (no_op m) FitsNone refl (no_op-ReadsBack m laws)
                destination payload h value tt (ap (λ t. for_destination destination t) same) small,
          ),
        )
    noop-IsRouted (refused e) same small = laws.none_left h ∙ noop_refused (m.entries h) e same

    -- Over the framing of the crate's frame, every publish whose headers fit it goes out, and opens
    -- over that framing with its payload and headers. Over faststream's, what goes out starts with
    -- the eight bytes that tell the format, and opens so too. Over the bare one, exactly a message
    -- without headers goes out, as its payload, and opens so. Over the broker's own envelope or a
    -- codec's, what that envelope seals goes out, or its refusal. Over an envelope that no framing
    -- names, every publish is refused with that envelope's name. What goes out is taken to be
    -- shorter than 2^64 bytes.
    pub open_value-seal :
        (f : Framing)
        → Carries f payload h
        → length (bytes_in (seal m c f broker destination payload h)) < 2 ^ 64
        → IsRouted f broker destination payload h (seal m c f broker destination payload h)
    unfolding seal envelope_of ruststream_fred.Envelope.RustStream.seal
    open_value-seal Framing.ruststream fits small =
        routed_back Framing.ruststream broker (rust_stream m) (FitsFrame m laws) refl
          (rust_stream-ReadsBack m laws) destination payload h _ fits refl small
    open_value-seal Framing.faststream fits small = faststream-IsRouted _ refl small
    open_value-seal Framing.noop fits small = noop-IsRouted _ refl small
    open_value-seal (Framing.unrouted name) fits small = refl
    open_value-seal Framing.own fits small = refl
    open_value-seal Framing.framed_json fits small = refl
    open_value-seal Framing.framed_cbor fits small = refl
    open_value-seal Framing.framed_msgpack fits small = refl
