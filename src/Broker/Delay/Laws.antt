-- ===== src/Broker/Delay/Laws.antt =====
-- A delayed retry comes back as it was queued.
use ruststream_fred.Common.{
  ℕ, ◌+◌, ◌^◌, ◌<◌, ◌≤◌, ◌≡◌, refl, sym, ap, ◌∙◌, arith, false, min, [], ◌++◌, Option, none, some,
  length,
}
use ruststream_fred.Server.Text.{Bytes}
use ruststream_fred.Server.Text.Decimal.{print, parse_u64-print, u64_max}
use ruststream_fred.Server.Value.{Double, Doubles}
use ruststream_fred.Server.State.{Duration}
use ruststream_fred.Envelope.Wire.{from_be_bytes, u32_bytes}
use ruststream_fred.Envelope.Wire.Laws.{HoldsAt, start-HoldsAt, past-HoldsAt, range_at}
use ruststream_fred.Envelope.Seal.{
  HeaderMaps, HeaderMapLaws, Sealed, sealed, refused, EntryFields, Envelope,
}
use ruststream_fred.Envelope.RustStream.{framed, seal}
use ruststream_fred.Envelope.RustStream.Laws.{framed_unframed}
use ruststream_fred.Envelope.RoundTrips.Frames.{FitsFrame}
use ruststream_fred.Broker.Delay.{
  value_of, tail_from, encode_member, decode_member, with_count, next_retry_count, or_zero,
  parsed_count, scheduled_if, scheduled,
}

module _ {H : Type 0} (m : HeaderMaps H) (laws : HeaderMapLaws m) (retry_header : Bytes) where
  -- A message with a header travels framed.
  sealed_framed :
      (payload : Bytes) (h : H)
      → m.is_empty h ≡ false
      → value_of (seal m payload h []) ≡ framed m payload h
  unfolding seal
  sealed_framed payload h e = rw e refl

  id_read : (n : ℕ) → n < 2 ^ 32 → from_be_bytes 0 (u32_bytes n) ≡ n
  unfolding u32_bytes
  id_read n fits = omega (arith, fits)

  tail_at :
      (member body : Bytes) (pos : ℕ) → HoldsAt member pos body → tail_from pos member ≡ some body
  tail_at member body pos at = ground (arith, at.within, at.dropped)

  decode_framed :
      (id payload : Bytes) (h : H)
      → length id < 2 ^ 32
      → FitsFrame m laws payload h
      → length (u32_bytes (length id) ++ (id ++ framed m payload h)) < 2 ^ 64
      → decode_member m retry_header (u32_bytes (length id) ++ (id ++ framed m payload h))
        ≡ some (payload, h)
  unfolding decode_member u32_bytes
  decode_framed id payload h short (fits, few) small =
      let member = u32_bytes (length id) ++ (id ++ framed m payload h) in
      let start = start-HoldsAt member small in
      let id_there = past-HoldsAt member 0 (u32_bytes (length id)) _ start in
      let body_there = past-HoldsAt member 4 id _ id_there in
      let body_small : length (framed m payload h) < 2 ^ 64 =
        omega (arith, body_there.within, small) in
      rw
        (
          range_at member 0 (u32_bytes (length id)) _ start,
          id_read (length id) short,
          tail_at member (framed m payload h) (4 + length id) body_there,
          framed_unframed m laws payload h fits few body_small,
        )
        refl

  -- decode
  pub decode_member-encode_member :
      (id payload : Bytes) (h : H)
      → m.is_empty h ≡ false
      → length id < 2 ^ 32
      → FitsFrame m laws payload h
      → length (encode_member m retry_header id payload h) < 2 ^ 64
      → decode_member m retry_header (encode_member m retry_header id payload h) ≡ some (payload, h)
  unfolding encode_member
  decode_member-encode_member id payload h e short fits small =
      let whole : min (length id) 4294967295 ≡ length id = omega (arith, short) in
      rw (whole, sealed_framed payload h e)
        (decode_framed id payload h short fits (rw (whole, sealed_framed payload h e) at small))

  scheduled_member :
      (o : Sealed EntryFields) (score : Double) (made : Bytes) (score' : Double) (member : Bytes)
      → scheduled_if m retry_header o (score, made) ≡ sealed (score', member)
      → made ≡ member
  scheduled_member (sealed fields) score made score' member e = ground (arith, e)
  scheduled_member (refused r) score made score' member e = ground (arith, e)

  -- A message's retry header says that it was retried `n` times; without one, none.
  abbrev pub HasRetries : Option Bytes → ℕ → Type 0
  HasRetries none n = n ≡ 0
  HasRetries (some text) n = text ≡ print n

  retries_read :
      (o : Option Bytes) (n : ℕ)
      → HasRetries o n
      → n ≤ u64_max
      → or_zero m retry_header (parsed_count m retry_header o) ≡ n
  retries_read none n has fits = sym has
  retries_read (some text) n has fits = rw (has, parse_u64-print n fits) refl

  raised :
      (h : H) (n : ℕ)
      → HasRetries (m.get_str retry_header h) n
      → n < u64_max
      → next_retry_count m retry_header h ≡ n + 1
  unfolding next_retry_count
  raised h n has fits = omega (arith, fits, retries_read _ n has (omega (arith, fits)))

  -- A delayed retry of a message that says it was retried `n` times is read back by a sweep as the
  -- payload and the headers with the retry header set to `n + 1`, whatever the stream's envelope;
  -- `n` is 0 without that header: if `n + 1` is a 64-bit number, the delivery's id and the headers'
  -- names and values are shorter than 2^32 bytes, the headers fewer than 2^32 - 1, and the member
  -- shorter than 2^64 bytes.
  pub decode_member-scheduled :
      (doubles : Doubles) (now : ℕ) (id payload : Bytes) (h : H) (n : ℕ) (delay : Duration)
      (envelope : Envelope H) (score : Double) (member : Bytes)
      → HasRetries (m.get_str retry_header h) n
      → n < u64_max
      → scheduled m retry_header doubles now id payload h delay envelope ≡ sealed (score, member)
      → length id < 2 ^ 32
      → FitsFrame m laws payload (m.insert retry_header (print (n + 1)) h)
      → length member < 2 ^ 64
      → decode_member m retry_header member
        ≡ some (payload, m.insert retry_header (print (n + 1)) h)
  unfolding scheduled
  decode_member-scheduled doubles now id payload h n delay envelope score member has few e short
        fits small =
      let next = m.insert retry_header (print (n + 1)) h in
      let counted : with_count m retry_header h ≡ next =
        ap (λ t. m.insert retry_header (print t) h) (raised h n has few) in
      let made =
        scheduled_member (envelope.seal_entry payload (with_count m retry_header h)) _
          (encode_member m retry_header id payload (with_count m retry_header h)) score member e in
      let written = ap (λ t. encode_member m retry_header id payload t) (sym counted) ∙ made in
      rw (sym written) (
        decode_member-encode_member id payload next (laws.kept retry_header (print (n + 1)) h) short
          fits (rw (sym written) at small))
