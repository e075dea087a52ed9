-- ===== src/Envelope/RustStream/Laws.antt =====
-- The frame of the crate's own layout reads back.
use ruststream_fred.Common.{
  ℕ, suc, ◌+◌, ◌-◌, ◌^◌, ◌<◌, ◌≡◌, refl, sym, ap, ◌∙◌, arith, true, List, [], ◌∷◌, ◌++◌, some,
  length, min, is_nil,
}
use ruststream_fred.Server.Text.{Bytes, is_utf8}
use ruststream_fred.Envelope.Wire.{read_u32, u32_bytes}
use ruststream_fred.Envelope.Wire.Laws.{
  HoldsAt, start-HoldsAt, past-HoldsAt, range_at, read_slice_at, read_u32_at,
}
use ruststream_fred.Envelope.Seal.{HeaderMaps, HeaderMapLaws, insert_all, all_text, Location}
use ruststream_fred.Envelope.RustStream.{
  marker_header, marked, is_marked, len_prefix, skip, skip_prefixed, skip_headers, frame_count,
  locate, header_bytes, read_headers, headers, framed, unframe_own,
}

-- Each name and value is shorter than its length prefix can say.
abbrev pub FitPrefixes : List (Bytes × Bytes) → Type 0
FitPrefixes [] = Unit
FitPrefixes ((name, header) ∷ es) =
    (length name < 2 ^ 32) × ((length header < 2 ^ 32) × FitPrefixes es)

past_prefix :
    (bytes : Bytes) (pos n : ℕ) (rest : Bytes)
    → HoldsAt bytes pos (len_prefix n ++ rest)
    → HoldsAt bytes (pos + 4) rest
unfolding len_prefix u32_bytes
past_prefix bytes pos n rest h = past-HoldsAt bytes pos (len_prefix n) rest h

read_prefix :
    (bytes : Bytes) (pos n : ℕ) (rest : Bytes)
    → n < 2 ^ 32
    → HoldsAt bytes pos (len_prefix n ++ rest)
    → read_u32 bytes pos ≡ some (n, pos + 4)
unfolding len_prefix
read_prefix bytes pos n rest fits h =
    let whole : min n 4294967295 ≡ n = omega (arith, fits) in
    read_u32_at bytes pos n rest fits (rw whole at h)

skip_prefixed_at :
    (bytes : Bytes) (pos : ℕ) (x rest : Bytes)
    → length x < 2 ^ 32
    → HoldsAt bytes pos (len_prefix (length x) ++ (x ++ rest))
    → skip_prefixed bytes pos ≡ some (pos + 4 + length x)
unfolding skip_prefixed skip
skip_prefixed_at bytes pos x rest fits h =
    rw
      (
        read_prefix bytes pos (length x) (x ++ rest) fits h,
        read_slice_at bytes (pos + 4) x rest (past_prefix bytes pos (length x) (x ++ rest) h),
      )
      refl

past_prefixed :
    (bytes : Bytes) (pos : ℕ) (x rest : Bytes)
    → HoldsAt bytes pos (len_prefix (length x) ++ (x ++ rest))
    → HoldsAt bytes (pos + 4 + length x) rest
past_prefixed bytes pos x rest h =
    past-HoldsAt bytes (pos + 4) x rest (past_prefix bytes pos (length x) (x ++ rest) h)

-- The end of the headers that stand at a position.
unfoldable pub headers_end : List (Bytes × Bytes) → ℕ → ℕ
headers_end [] pos = pos
headers_end ((name, header) ∷ es) pos = headers_end es (pos + 4 + length name + 4 + length header)

past_headers :
    (bytes : Bytes) (es : List (Bytes × Bytes)) (pos : ℕ) (rest : Bytes)
    → HoldsAt bytes pos (header_bytes es rest)
    → HoldsAt bytes (headers_end es pos) rest
unfolding header_bytes headers_end
past_headers bytes [] pos rest h = h
past_headers bytes ((name, header) ∷ es) pos rest h =
    past_headers bytes es _ rest
      (past_prefixed bytes (pos + 4 + length name) header _ (past_prefixed bytes pos name _ h))

skip_headers_at :
    (bytes : Bytes) (es : List (Bytes × Bytes)) (pos : ℕ) (rest : Bytes)
    → FitPrefixes es
    → HoldsAt bytes pos (header_bytes es rest)
    → skip_headers (length es) bytes pos ≡ some (headers_end es pos)
unfolding header_bytes headers_end skip_headers
skip_headers_at bytes [] pos rest fits h = refl
skip_headers_at bytes ((name, header) ∷ es) pos rest (fn, (fh, fits)) h =
    let second = past_prefixed bytes pos name _ h in
    rw
      (
        skip_prefixed_at bytes pos name _ fn h,
        skip_prefixed_at bytes (pos + 4 + length name) header _ fh second,
      )
      (skip_headers_at bytes es _ rest fits
        (past_prefixed bytes (pos + 4 + length name) header _ second))

is_marked_at :
    (bytes rest : Bytes) → HoldsAt bytes 4 (marker_header ++ rest) → is_marked bytes ≡ true
unfolding is_marked
is_marked_at bytes rest h = rw (range_at bytes 4 marker_header rest h) refl

module _ {H : Type 0} (m : HeaderMaps H) where
  read_headers_at :
      (bytes : Bytes) (es : List (Bytes × Bytes)) (pos : ℕ) (rest : Bytes) (h : H)
      → FitPrefixes es
      → all_text es ≡ true
      → HoldsAt bytes pos (header_bytes es rest)
      → read_headers m (length es) bytes pos h ≡ some (insert_all m es h, headers_end es pos)
  unfolding header_bytes headers_end read_headers insert_all all_text
  read_headers_at bytes [] pos rest h fits text at = refl
  read_headers_at bytes ((name, header) ∷ es) pos rest h (fn, (fh, fits)) text at =
      let second = past_prefixed bytes pos name _ at in
      let name_at = past_prefix bytes pos (length name) _ at in
      let value_at = past_prefix bytes (pos + 4 + length name) (length header) _ second in
      let is_text : is_utf8 name ≡ true = ground (arith, text) in
      let more : all_text es ≡ true = ground (arith, text) in
      rw
        (
          read_prefix bytes pos (length name) _ fn at,
          read_slice_at bytes (pos + 4) name _ name_at,
          is_text,
          read_prefix bytes (pos + 4 + length name) (length header) _ fh second,
          read_slice_at bytes (pos + 4 + length name + 4) header _ value_at,
        )
        (read_headers_at bytes es _ rest (m.insert name header h) fits more
          (past_prefixed bytes (pos + 4 + length name) header _ second))

  module _ (laws : HeaderMapLaws m) where
    nil_inserted :
        (es : List (Bytes × Bytes)) → is_nil es ≡ true → insert_all m es m.empty ≡ m.empty
    unfolding insert_all
    nil_inserted [] e = refl
    nil_inserted (x ∷ es) e = ground (arith, e)

    pub empty_headers : (h : H) → m.is_empty h ≡ true → m.empty ≡ h
    empty_headers h e =
        sym (nil_inserted (m.entries h) (sym (laws.none_left h) ∙ e)) ∙ laws.rebuilt h

    module _ (payload : Bytes) (h : H) (fits : FitPrefixes (m.entries h))
        (few : length (m.entries h) + 1 < 2 ^ 32)
        (small : length (framed m payload h) < 2 ^ 64) where
      count_read : read_u32 (framed m payload h) 0 ≡ some (suc (length (m.entries h)), 4)
      unfolding framed
      count_read =
          let whole : min (m.len h + 1) (2 ^ 64 - 1) ≡ suc (length (m.entries h)) =
            omega (arith, laws.counted h, few) in
          read_prefix (framed m payload h) 0 (min (m.len h + 1) (2 ^ 64 - 1)) _
            (omega (arith, whole, few)) (start-HoldsAt (framed m payload h) small)
          ∙ ap (λ (n : ℕ). some (n, 4)) whole

      marker_there :
          HoldsAt (framed m payload h) 4 (marker_header ++ header_bytes (m.entries h) payload)
      unfolding framed
      marker_there =
          past_prefix (framed m payload h) 0 _ _ (start-HoldsAt (framed m payload h) small)

      pub headers_there : HoldsAt (framed m payload h) marked (header_bytes (m.entries h) payload)
      headers_there = past-HoldsAt (framed m payload h) 4 marker_header _ marker_there

      pub framed_marked : is_marked (framed m payload h) ≡ true
      framed_marked = is_marked_at (framed m payload h) _ marker_there

      pub payload_there : HoldsAt (framed m payload h) (headers_end (m.entries h) marked) payload
      payload_there = past_headers (framed m payload h) (m.entries h) marked payload headers_there

      pub framed_located :
          locate (framed m payload h)
          ≡ Location.within (headers_end (m.entries h) marked) (length (framed m payload h))
      unfolding locate frame_count
      framed_located =
          rw
            (
              framed_marked,
              count_read,
              skip_headers_at (framed m payload h) (m.entries h) marked payload fits headers_there,
            )
            refl

      pub framed_headers : headers m (framed m payload h) ≡ some h
      unfolding headers frame_count
      framed_headers =
          rw
            (
              count_read,
              read_headers_at (framed m payload h) (m.entries h) marked payload m.empty fits
                  (laws.text h) headers_there,
              laws.rebuilt h,
            )
            refl

      pub framed_unframed : unframe_own m (framed m payload h) ≡ some (payload, h)
      unfolding unframe_own
      framed_unframed =
          rw
            (
              count_read,
              framed_marked,
              read_headers_at (framed m payload h) (m.entries h) marked payload m.empty fits
                  (laws.text h) headers_there,
              laws.rebuilt h,
              payload_there.dropped,
            )
            refl
