-- ===== src/Envelope/FastStream/Frame.antt =====
-- What a frame of faststream holds, and how it is found and read.
use ruststream_fred.Common.{
  ℕ, ◌+◌, ◌^◌, ◌<◌, ◌≡◌, refl, sym, arith, true, List, [], ◌++◌, some, length, length-append, leb,
}
use ruststream_fred.Server.Text.{Bytes}
use ruststream_fred.Envelope.Wire.{u16_bytes, u32_bytes}
use ruststream_fred.Envelope.Wire.Laws.{
  HoldsAt, start-HoldsAt, past-HoldsAt, range_at, read_u16_at, read_u32_at,
}
use ruststream_fred.Envelope.Seal.{HeaderMaps, insert_all, all_text, Location}
use ruststream_fred.Envelope.FastStream.{
  identity, headers_start, locate, block_length, preamble, headers,
}
use ruststream_fred.Envelope.FastStream.Laws.{
  string_bytes, FitStrings, strings_apart, length-strings, past_u16, read_strings_at,
}

abbrev pub offset : List (Bytes × Bytes) → ℕ
offset es = headers_start + 2 + block_length es

abbrev pub block_of : List (Bytes × Bytes) → Bytes
block_of es = u16_bytes (length es) ++ string_bytes es []

-- The frame of a message whose headers fit.
unfoldable pub frame : List (Bytes × Bytes) → Bytes → Bytes
frame es payload = preamble (offset es) (length es) ++ string_bytes es payload

module _ (es : List (Bytes × Bytes)) (payload : Bytes)
    (small : length (frame es payload) < 2 ^ 64) where
  abbrev behind_version : Bytes
  behind_version = u32_bytes headers_start ++ (u32_bytes (offset es) ++ (block_of es ++ payload))

  identity_there : HoldsAt (frame es payload) 0 (identity ++ (u16_bytes 1 ++ behind_version))
  unfolding frame preamble u16_bytes u32_bytes
  identity_there = rw (sym (strings_apart es payload)) (start-HoldsAt (frame es payload) small)

  version_there : HoldsAt (frame es payload) 8 (u16_bytes 1 ++ behind_version)
  version_there = past-HoldsAt (frame es payload) 0 identity _ identity_there

  start_there : HoldsAt (frame es payload) 10 behind_version
  start_there = past_u16 (frame es payload) 8 1 _ version_there

  offset_there : HoldsAt (frame es payload) 14 (u32_bytes (offset es) ++ (block_of es ++ payload))
  unfolding u32_bytes
  offset_there = past-HoldsAt (frame es payload) 10 (u32_bytes headers_start) _ start_there

  block_there : HoldsAt (frame es payload) 18 (block_of es ++ payload)
  unfolding u32_bytes
  block_there = past-HoldsAt (frame es payload) 14 (u32_bytes (offset es)) _ offset_there

  block_end : 18 + length (block_of es) ≡ offset es
  unfolding u16_bytes
  block_end = omega (arith, length-strings es)

  pub payload_there : HoldsAt (frame es payload) (offset es) payload
  payload_there =
      rw block_end at (past-HoldsAt (frame es payload) 18 (block_of es) payload block_there)

  pub frame_located :
      offset es < 2 ^ 32
      → locate (frame es payload) ≡ Location.within (offset es) (length (frame es payload))
  unfolding locate
  frame_located fits =
      let inside : leb (offset es) (length (frame es payload)) ≡ true =
        ground (arith, payload_there.within) in
      let behind_start : leb headers_start (offset es) ≡ true = ground arith in
      rw
        (
          range_at (frame es payload) 0 identity _ identity_there,
          read_u16_at (frame es payload) 8 1 _ (omega arith) version_there,
          read_u32_at (frame es payload) 10 headers_start _ (omega arith) start_there,
          read_u32_at (frame es payload) 14 (offset es) _ fits offset_there,
          behind_start,
          inside,
        )
        refl

  module _ {H : Type 0} (m : HeaderMaps H) where
    pub frame_headers :
        FitStrings es
        → all_text es ≡ true
        → length es < 2 ^ 16
        → offset es < 2 ^ 32
        → headers m (frame es payload) ≡ some (insert_all m es m.empty)
    unfolding headers
    frame_headers fits text few offset_fits =
        let block_small : length (block_of es) < 2 ^ 64 =
          omega (arith, small, block_there.within, length-append (block_of es) payload) in
        let count_there : HoldsAt (block_of es) 0 (block_of es) =
          start-HoldsAt (block_of es) block_small in
        rw
          (
            read_u32_at (frame es payload) 10 headers_start _ (omega arith) start_there,
            read_u32_at (frame es payload) 14 (offset es) _ offset_fits offset_there,
            sym block_end,
            range_at (frame es payload) 18 (block_of es) payload block_there,
            read_u16_at (block_of es) 0 (length es) _ few count_there,
          )
          (read_strings_at m (block_of es) es 2 [] m.empty fits text
            (past_u16 (block_of es) 0 (length es) _ count_there))
