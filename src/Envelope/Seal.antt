-- ===== src/Envelope/Seal.antt =====
-- envelope/mod.rs: what an envelope is, with the defaults of its trait. The headers are the
-- `HeaderMap` of the ruststream crate, a parameter.
use ruststream_fred.Common.{ℕ, ◌≡◌, Bool, true, false, List, [], ◌∷◌, Option, length, is_nil, ◌&&◌}
use ruststream_fred.Common.Map.{Map}
use ruststream_fred.Server.Text.{Bytes, b, is_utf8}

-- `HeaderMap`
pub record HeaderMaps (H : Type 0) : Type 0 where
  pub empty : H
  pub insert : Bytes → Bytes → H → H
  pub entries : H → List (Bytes × Bytes)
  pub len : H → ℕ
  pub is_empty : H → Bool
  pub get_str : Bytes → H → Option Bytes

-- Headers inserted one by one.
unfoldable pub insert_all : {H : Type 0} → HeaderMaps H → List (Bytes × Bytes) → H → H
insert_all m [] h = h
insert_all m ((name, header) ∷ es) h = insert_all m es (m.insert name header h)

unfoldable pub all_text : List (Bytes × Bytes) → Bool
all_text [] = true
all_text ((name, header) ∷ es) = is_utf8 name && all_text es

-- What the code relies on: the count is that of the headers, their names are text, a map with a
-- header inserted is not empty, and inserting the headers of a map in the order it gives them builds
-- the map again.
pub record HeaderMapLaws {H : Type 0} (m : HeaderMaps H) : Type 0 where
  pub counted : (h : H) → m.len h ≡ length (m.entries h)
  pub none_left : (h : H) → m.is_empty h ≡ is_nil (m.entries h)
  pub kept : (name header : Bytes) (h : H) → m.is_empty (m.insert name header h) ≡ false
  pub text : (h : H) → all_text (m.entries h) ≡ true
  pub rebuilt : (h : H) → insert_all m (m.entries h) m.empty ≡ h

-- `enum Location`
pub data Location : Type 0 where
  bare : Location
  within : ℕ → ℕ → Location
  decoded : Bytes → Location

-- `enum SealError`; `encode` has the text of the error it carries.
pub data SealError : Type 0 where
  header_not_carried : Bytes → SealError
  encode : Bytes → SealError

-- The outcome of a sealing.
pub data Sealed (A : Type 0) : Type 0 where
  sealed : A → Sealed A
  refused : SealError → Sealed A

-- The fields of a stream entry.
abbrev pub EntryFields : Type 0
EntryFields = List (Bytes × Bytes)

abbrev pub payload_field : Bytes
payload_field = b "_payload"

-- `trait Envelope`; `seal` answers the value it was given with the message appended.
pub record Envelope (H : Type 0) : Type 0 where
  pub locate : Bytes → Location
  pub headers : Bytes → Option H
  pub seal : Bytes → H → Bytes → Sealed Bytes
  pub entry_field : Bytes
  pub seal_entry : Bytes → H → Sealed EntryFields
  pub locate_entry : Bytes → Location
  pub entry_headers : Bytes → Map Bytes Bytes → Option H

abbrev pub one_field : Bytes → Sealed Bytes → Sealed EntryFields
one_field field (sealed value) = sealed ((field, value) ∷ [])
one_field field (refused e) = refused e

-- An envelope with the defaults of the trait.
abbrev pub with_defaults :
    {H : Type 0}
    → (Bytes → Location)
    → (Bytes → Option H)
    → (Bytes → H → Bytes → Sealed Bytes)
    → Bytes
    → Envelope H
with_defaults locate headers seal field = record {
  locate = locate;
  headers = headers;
  seal = seal;
  entry_field = field;
  seal_entry = λ payload h. one_field field (seal payload h []);
  locate_entry = locate;
  entry_headers = λ value fields. headers value;
}
