-- ===== src/Envelope/Tests.antt =====
-- A header map of two names, and messages sealed and read back: the concrete inputs of the children.
pub mod Sealing
use ruststream_fred.Common.{
  ℕ, ◌≡◌, refl, sym, ap, ◌∙◌, arith, Bool, true, false, ◌&&◌, List, [], ◌∷◌, ◌++◌, Option, none,
  some, length, is_nil, if◌then◌else◌,
}
use ruststream_fred.Common.Order.{◌==◌, bytes_ord}
use ruststream_fred.Server.Text.{Bytes, b, is_utf8}
use ruststream_fred.Envelope.Seal.{HeaderMaps, HeaderMapLaws, insert_all, all_text}

-- Headers under one of two names.
abbrev pub TestHeaders : Type 0
TestHeaders = List (Bool × Bytes)

abbrev pub same_name : Bool → Bool → Bool
same_name true true = true
same_name false false = true
same_name _ _ = false

abbrev name_of : Bool → Bytes
name_of true = b "tenant"
name_of false = b "trace"

abbrev pub entries_of : TestHeaders → List (Bytes × Bytes)
entries_of [] = []
entries_of ((name, header) ∷ es) = (name_of name, header) ∷ entries_of es

abbrev pub or_last : Bytes → Option Bytes → Option Bytes
or_last header none = some header
or_last header (some last) = some last

abbrev pub last_of : Bool → TestHeaders → Option Bytes
last_of name [] = none
last_of name ((other, header) ∷ es) =
    let last = last_of name es in if same_name name other then or_last header last else last

abbrev pub test_headers : HeaderMaps TestHeaders
test_headers = record {
  empty = [];
  insert = λ name header h. h ++ (name == b "tenant", header) ∷ [];
  entries = entries_of;
  len = λ h. length (entries_of h);
  is_empty = λ h. is_nil (entries_of h);
  get_str = λ name h. last_of (name == b "tenant") h;
}

text_entries : (h : TestHeaders) → all_text (entries_of h) ≡ true
unfolding all_text is_utf8
text_entries [] = refl
text_entries ((true, header) ∷ es) = text_entries es
text_entries ((false, header) ∷ es) = text_entries es

append_one :
    (h : TestHeaders) (x : Bool × Bytes) (es : TestHeaders) → (h ++ x ∷ []) ++ es ≡ h ++ x ∷ es
append_one [] x es = refl
append_one (y ∷ h) x es = ap (λ t. y ∷ t) (append_one h x es)

append_none : (h : TestHeaders) → h ++ [] ≡ h
append_none [] = refl
append_none (y ∷ h) = ap (λ t. y ∷ t) (append_none h)

insert_entries : (es h : TestHeaders) → insert_all test_headers (entries_of es) h ≡ h ++ es
unfolding insert_all
insert_entries [] h = sym (append_none h)
insert_entries ((true, header) ∷ es) h =
    insert_entries es (h ++ (true, header) ∷ []) ∙ append_one h (true, header) es
insert_entries ((false, header) ∷ es) h =
    insert_entries es (h ++ (false, header) ∷ []) ∙ append_one h (false, header) es

not_empty : (h : TestHeaders) (x : Bool × Bytes) → is_nil (entries_of (h ++ x ∷ [])) ≡ false
not_empty [] x = refl
not_empty (y ∷ h) x = refl

pub test_headers-HeaderMapLaws : HeaderMapLaws test_headers
test_headers-HeaderMapLaws = record {
  counted = λ h. refl;
  none_left = λ h. refl;
  kept = λ name header h. not_empty h (name == b "tenant", header);
  text = text_entries;
  rebuilt = λ h. insert_entries h [];
}
