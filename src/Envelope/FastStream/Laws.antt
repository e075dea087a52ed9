-- ===== src/Envelope/FastStream/Laws.antt =====
-- The frame of faststream reads back.
use ruststream_fred.Common.{
  ℕ, ◌+◌, ◌^◌, ◌<◌, ◌≡◌, refl, ap, arith, true, List, [], ◌∷◌, ◌++◌, some, length, length-append,
}
use ruststream_fred.Server.Text.{Bytes, is_utf8}
use ruststream_fred.Envelope.Wire.{u16_bytes}
use ruststream_fred.Envelope.Wire.Laws.{HoldsAt, past-HoldsAt, read_slice_at, read_u16_at}
use ruststream_fred.Envelope.Seal.{HeaderMaps, insert_all, all_text, Sealed, sealed, refused}
use ruststream_fred.Envelope.FastStream.{
  read_string, block_length, write_string, write_strings, read_strings,
}

-- The names and values with their lengths, and then `rest`.
unfoldable pub string_bytes : List (Bytes × Bytes) → Bytes → Bytes
string_bytes [] rest = rest
string_bytes ((name, header) ∷ es) rest =
    u16_bytes (length name)
    ++ (name ++ (u16_bytes (length header) ++ (header ++ string_bytes es rest)))

abbrev pub FitStrings : List (Bytes × Bytes) → Type 0
FitStrings [] = Unit
FitStrings ((name, header) ∷ es) =
    (length name < 2 ^ 16) × ((length header < 2 ^ 16) × FitStrings es)

-- What stands in a value where a string was written without a refusal.
record IsWritten (x : Bytes) (r : Sealed Bytes) (out : Bytes) : Type 0 where
  behind_it : Bytes
  is_sealed : r ≡ sealed behind_it
  fits : length x < 2 ^ 16
  is_whole : u16_bytes (length x) ++ (x ++ behind_it) ≡ out

abbrev pub value_in : Sealed Bytes → Bytes
value_in (sealed value) = value
value_in (refused e) = []

string_IsWritten :
    (name x : Bytes) (r : Sealed Bytes) (out : Bytes)
    → write_string name x r ≡ sealed out
    → IsWritten x r out
unfolding write_string
string_IsWritten name x (refused e) out same = ground (arith, same)
string_IsWritten name x (sealed rest) out same = record {
  behind_it = rest;
  is_sealed = refl;
  fits = ground (arith, same);
  is_whole = ground (arith, same);
}

pub written :
    (es : List (Bytes × Bytes)) (payload out : Bytes)
    → write_strings es payload ≡ sealed out
    → (string_bytes es payload ≡ out) × FitStrings es
unfolding write_strings string_bytes
written [] payload out same = (ap value_in same, tt)
written ((name, header) ∷ es) payload out same =
    let outer = string_IsWritten name name _ out same in
    let inner = string_IsWritten name header _ outer.behind_it outer.is_sealed in
    let (rest, fits) = written es payload inner.behind_it inner.is_sealed in
    (rw (rest, inner.is_whole) outer.is_whole, (outer.fits, (inner.fits, fits)))

append_assoc : (x y z : Bytes) → (x ++ y) ++ z ≡ x ++ (y ++ z)
append_assoc [] y z = refl
append_assoc (c ∷ x) y z = ap (λ t. c ∷ t) (append_assoc x y z)

-- The strings and the payload are the strings, and then the payload.
pub strings_apart :
    (es : List (Bytes × Bytes)) (payload : Bytes)
    → string_bytes es payload ≡ string_bytes es [] ++ payload
unfolding string_bytes u16_bytes
strings_apart [] payload = refl
strings_apart ((name, header) ∷ es) payload = rw (strings_apart es payload) (simp append_assoc refl)

pub length-strings : (es : List (Bytes × Bytes)) → length (string_bytes es []) ≡ block_length es
unfolding string_bytes block_length u16_bytes
length-strings [] = refl
length-strings ((name, header) ∷ es) = omega (
  arith,
  length-append name (u16_bytes (length header) ++ (header ++ string_bytes es [])),
  length-append header (string_bytes es []),
  length-strings es,
)

pub past_u16 :
    (bytes : Bytes) (pos n : ℕ) (rest : Bytes)
    → HoldsAt bytes pos (u16_bytes n ++ rest)
    → HoldsAt bytes (pos + 2) rest
unfolding u16_bytes
past_u16 bytes pos n rest at = past-HoldsAt bytes pos (u16_bytes n) rest at

past_string :
    (block : Bytes) (pos : ℕ) (x rest : Bytes)
    → HoldsAt block pos (u16_bytes (length x) ++ (x ++ rest))
    → HoldsAt block (pos + 2 + length x) rest
past_string block pos x rest at =
    past-HoldsAt block (pos + 2) x rest (past_u16 block pos (length x) (x ++ rest) at)

read_string_at :
    (block : Bytes) (pos : ℕ) (x rest : Bytes)
    → length x < 2 ^ 16
    → HoldsAt block pos (u16_bytes (length x) ++ (x ++ rest))
    → read_string block pos ≡ some (x, pos + 2 + length x)
unfolding read_string
read_string_at block pos x rest fits at =
    rw
      (
        read_u16_at block pos (length x) (x ++ rest) fits at,
        read_slice_at block (pos + 2) x rest (past_u16 block pos (length x) (x ++ rest) at),
      )
      refl

module _ {H : Type 0} (m : HeaderMaps H) where
  pub read_strings_at :
      (block : Bytes) (es : List (Bytes × Bytes)) (pos : ℕ) (rest : Bytes) (h : H)
      → FitStrings es
      → all_text es ≡ true
      → HoldsAt block pos (string_bytes es rest)
      → read_strings m (length es) block pos h ≡ some (insert_all m es h)
  unfolding string_bytes read_strings insert_all all_text
  read_strings_at block [] pos rest h fits text at = refl
  read_strings_at block ((name, header) ∷ es) pos rest h (fn, (fh, fits)) text at =
      let second = past_string block pos name _ at in
      let is_text : is_utf8 name ≡ true = ground (arith, text) in
      let more : all_text es ≡ true = ground (arith, text) in
      rw
        (
          read_string_at block pos name _ fn at,
          is_text,
          read_string_at block (pos + 2 + length name) header _ fh second,
        )
        (read_strings_at block es _ rest (m.insert name header h) fits more
          (past_string block (pos + 2 + length name) header _ second))
