-- ===== src/Server/Streams/Trims.antt =====
-- What trimming keeps.
use ruststream_fred.Common.{
  ℕ, suc, ◌-◌, ◌≡◌, refl, true, false, [], ◌∷◌, none, arith, length, drop, ltb, inl, inr,
  Bool-cases, length-drop, if◌then◌else◌,
}
use ruststream_fred.Common.Order.{◌<?◌, nat_ord, pair_ord}
use ruststream_fred.Common.Map.{Map, get, range_from, range_to}
use ruststream_fred.Server.State.{EntryId, Fields, Stream}
use ruststream_fred.Server.Streams.{max_len, min_id, pop_to, trim_entries, apply_trim, pick_range}

-- `MAXLEN` keeps the newest entries.
pop_to-drop : (len : ℕ) (es : Map EntryId Fields) → pop_to len es ≡ drop (length es - len) es
unfolding pop_to
pop_to-drop len [] = ground arith
pop_to-drop len (e ∷ es) = elim (Bool-cases (ltb len (suc (length es)))) [
  | inl t ↦
      let more : suc (length es) - len ≡ suc (length es - len) = ground arith in
      rw t (rw more (pop_to-drop len es))
  | inr f ↦ let enough : suc (length es) - len ≡ 0 = ground arith in rw f (rw enough refl)
]

-- A trim to a length drops the oldest entries, just as many as are too many, and answers how many.
pub apply_trim-max_len :
    (len : ℕ) (s : Stream)
    → ((apply_trim (max_len len) s).1.entries ≡ drop (length s.entries - len) s.entries)
      × ((apply_trim (max_len len) s).0 ≡ length s.entries - len)
unfolding apply_trim trim_entries
apply_trim-max_len len s = (
  pop_to-drop len s.entries,
  rw (pop_to-drop len s.entries) (omega (arith, length-drop (length s.entries - len) s.entries)),
)

module _ {V : Type 0} where
  pub get-range_from :
      (k j : EntryId) (m : Map EntryId V)
      → get j (range_from k m) ≡ (if j <? k then none else get j m)
  unfolding get range_from
  get-range_from k j [] = ground arith
  get-range_from k j ((i, w) ∷ m) =
      ground (arith, get-range_from k j m, (pair_ord {A = ℕ} {B = ℕ}).eq_of_cmp i j)

  pub get-range_to :
      (k j : EntryId) (m : Map EntryId V)
      → get j (range_to k m) ≡ (if k <? j then none else get j m)
  unfolding get range_to
  get-range_to k j [] = ground arith
  get-range_to k j ((i, w) ∷ m) =
      ground (arith, get-range_to k j m, (pair_ord {A = ℕ} {B = ℕ}).eq_of_cmp i j)

-- A trim by id keeps the entries at that id or past it, as they were, and no entry below it.
pub get-apply_trim-min_id :
    (min id : EntryId) (s : Stream)
    → get id (apply_trim (min_id min) s).1.entries ≡ (if id <? min then none else get id s.entries)
unfolding apply_trim trim_entries
get-apply_trim-min_id min id s = get-range_from min id s.entries

between :
    (start end id : EntryId) → (end <? start) ≡ true → (id <? start) ≡ false → (end <? id) ≡ true
between (a, c) (d, e) (f, g) h k = ground arith

-- A range without `COUNT`, oldest first, holds an entry of the stream exactly where its id lies
-- between the ends, both included.
pub get-pick_range :
    (start end id : EntryId) (es : Map EntryId Fields)
    → get id (pick_range start end none false es)
      ≡ (if id <? start then none else if end <? id then none else get id es)
unfolding pick_range get
get-pick_range start end id es = ground (
  arith,
  between start end id,
  get-range_to end id (range_from start es),
  get-range_from start id es,
)
