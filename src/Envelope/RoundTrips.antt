-- ===== src/Envelope/RoundTrips.antt =====
-- envelope/body.rs: what an envelope promises its readers.
pub mod Frames
pub mod FastFrames
pub mod Framings
use ruststream_fred.Common.{
  ℕ, zero, suc, ◌+◌, ◌-◌, ◌^◌, ◌<◌, ◌≤◌, ◌≡◌, refl, sym, ap, ◌∙◌, arith, true, false, List, [], ◌∷◌,
  ◌++◌, Option, none, some, length, take, drop, is_some,
}
use ruststream_fred.Server.Text.{Bytes}
use ruststream_fred.Envelope.Wire.{range}
use ruststream_fred.Envelope.Wire.Laws.{HoldsAt}
use ruststream_fred.Envelope.Seal.{HeaderMaps, Location, bare, Sealed, sealed, Envelope}
use ruststream_fred.Envelope.Body.{
  Payload, whole, part, payload_of, slice, open_body, body_payload, body_headers,
}

-- A delivery of a sealed message has its payload and its headers.
pub record ReadsBack {H : Type 0} (m : HeaderMaps H) (e : Envelope H) (Fits : Bytes → H → Type 0)
    : Type 0 where
  pub back :
      (payload : Bytes) (h : H) (value : Bytes)
      → Fits payload h
      → e.seal payload h [] ≡ sealed value
      → length value < 2 ^ 64
      → (body_payload m (open_body m e value) ≡ payload)
        × (body_headers m (open_body m e value) ≡ h)

-- No condition on a message.
abbrev pub FitsNone : {H : Type 0} → Bytes → H → Type 0
FitsNone payload h = Unit

take_all : (xs : Bytes) → take (length xs) xs ≡ xs
take_all [] = refl
take_all (x ∷ xs) = ap (λ t. x ∷ t) (take_all xs)

located_part :
    (value payload : Bytes) (pos : ℕ)
    → HoldsAt value pos payload
    → payload_of (Location.within pos (length value)) value ≡ part pos (length value)
unfolding payload_of range
located_part value payload pos at = ground (arith, at.within)

slice_part :
    (value payload : Bytes) (pos : ℕ)
    → HoldsAt value pos payload
    → slice (part pos (length value)) value ≡ payload
slice_part value payload pos at =
    let size : length value - pos ≡ length payload = omega (arith, at.within) in
    rw (size, at.dropped) (take_all payload)

module _ {H : Type 0} (m : HeaderMaps H) where
  pub framed_back :
      (e : Envelope H) (value payload : Bytes) (pos : ℕ) (h : H)
      → e.locate value ≡ Location.within pos (length value)
      → e.headers value ≡ some h
      → HoldsAt value pos payload
      → (body_payload m (open_body m e value) ≡ payload)
        × (body_headers m (open_body m e value) ≡ h)
  framed_back e value payload pos h found read at =
      rw (found, read, located_part value payload pos at) (slice_part value payload pos at, refl)

  pub bare_back :
      (e : Envelope H) (value : Bytes) (h : H)
      → e.locate value ≡ bare
      → m.empty ≡ h
      → (body_payload m (open_body m e value) ≡ value) × (body_headers m (open_body m e value) ≡ h)
  unfolding payload_of
  bare_back e value h found empty = rw found (refl, empty)
