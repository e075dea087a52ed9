-- ===== src/Envelope/RoundTrips/FastFrames.antt =====
-- envelope/fast_stream.rs: what is sealed reads back.
use ruststream_fred.Common.{
  ◌^◌, ◌<◌, ◌≡◌, refl, sym, ap, ◌∙◌, arith, Bool, true, false, [], ◌++◌, some, length, take, leb,
  if◌then◌else◌,
}
use ruststream_fred.Server.Text.{Bytes}
use ruststream_fred.Envelope.Seal.{HeaderMaps, HeaderMapLaws, Sealed, sealed, refused, SealError}
use ruststream_fred.Envelope.FastStream.{identity, behind, preamble, seal, fast_stream}
use ruststream_fred.Envelope.FastStream.Laws.{FitStrings, written, value_in}
use ruststream_fred.Envelope.FastStream.Frame.{
  offset, frame, payload_there, frame_located, frame_headers,
}
use ruststream_fred.Envelope.Body.{open_body, body_payload, body_headers}
use ruststream_fred.Envelope.RoundTrips.{ReadsBack, FitsNone, framed_back}

not_refused :
    (c : Bool) (e : SealError) (s : Sealed Bytes) (value : Bytes)
    → (if c then refused e else s) ≡ sealed value
    → (c ≡ false) × (s ≡ sealed value)
not_refused true e s value same = ground (arith, same)
not_refused false e s value same = (refl, same)

record IsBehind (front : Bytes) (s : Sealed Bytes) (value : Bytes) : Type 0 where
  rest : Bytes
  is_sealed : s ≡ sealed rest
  is_whole : front ++ rest ≡ value

behind-IsBehind :
    (front : Bytes) (s : Sealed Bytes) (value : Bytes)
    → behind front s ≡ sealed value
    → IsBehind front s value
behind-IsBehind front (sealed rest) value same = record {
  rest = rest;
  is_sealed = refl;
  is_whole = ap value_in same;
}
behind-IsBehind front (refused e) value same = ground (arith, same)

module _ {H : Type 0} (m : HeaderMaps H) (laws : HeaderMapLaws m) where
  -- What sealing a message without a refusal shows of it.
  record IsFramed (payload : Bytes) (h : H) (value : Bytes) : Type 0 where
    few : length (m.entries h) < 2 ^ 16
    offset_fits : offset (m.entries h) < 2 ^ 32
    fits : FitStrings (m.entries h)
    is_frame : frame (m.entries h) payload ≡ value

  seal-IsFramed :
      (payload : Bytes) (h : H) (value : Bytes)
      → seal m payload h [] ≡ sealed value
      → IsFramed payload h value
  unfolding seal frame
  seal-IsFramed payload h value same =
      let (few, past_count) = not_refused (leb (2 ^ 16) (m.len h)) _ _ value same in
      let (small, past_offset) =
        not_refused (leb (2 ^ 32) (offset (m.entries h))) _ _ value past_count in
      let outer = behind-IsBehind [] _ value past_offset in
      let inner =
        behind-IsBehind (preamble (offset (m.entries h)) (m.len h)) _ outer.rest outer.is_sealed in
      let (strings, fits) = written (m.entries h) payload inner.rest inner.is_sealed in
      record {
        few = ground (arith, few, laws.counted h);
        offset_fits = ground (arith, small);
        fits = fits;
        is_frame = rw (sym (laws.counted h), strings, inner.is_whole) outer.is_whole;
      }

  -- What it seals starts with the eight bytes that tell the format.
  pub sealed_identity :
      (payload : Bytes) (h : H) (value : Bytes)
      → seal m payload h [] ≡ sealed value
      → take 8 value ≡ identity
  unfolding frame preamble
  sealed_identity payload h value same = rw (sym (seal-IsFramed payload h value same).is_frame) refl

  -- fast_stream
  pub fast_stream-ReadsBack : ReadsBack m (fast_stream m) FitsNone
  fast_stream-ReadsBack = record {
    back = λ payload h value fits same small.
        let f = seal-IsFramed payload h value same in
        let es = m.entries h in
        let frame_small : length (frame es payload) < 2 ^ 64 = rw f.is_frame small in
        rw (sym f.is_frame) (
          framed_back m (fast_stream m) (frame es payload) payload (offset es) h
            (frame_located es payload frame_small f.offset_fits)
            (frame_headers es payload frame_small m f.fits (laws.text h) f.few f.offset_fits
              ∙ ap some (laws.rebuilt h))
            (payload_there es payload frame_small));
  }

  -- Whatever message the envelope of faststream seals without a refusal, its value, if shorter than
  -- 2^64 bytes, opens with that payload and those headers. The headers are any map that is built
  -- again from its headers, in the order it gives them.
  pub open_body-fast_stream :
      (payload : Bytes) (h : H) (value : Bytes)
      → (fast_stream m).seal payload h [] ≡ sealed value
      → length value < 2 ^ 64
      → (body_payload m (open_body m (fast_stream m) value) ≡ payload)
        × (body_headers m (open_body m (fast_stream m) value) ≡ h)
  open_body-fast_stream payload h value same small =
      fast_stream-ReadsBack.back payload h value tt same small
