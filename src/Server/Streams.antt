-- ===== src/Server/Streams.antt =====
-- in_process/streams.rs: trims, the ids of new entries, appends, and ranges of a stream's entries.
pub mod Append
pub mod Trims
use ruststream_fred.Common.{
  ℕ, zero, suc, ◌+◌, ◌-◌, ◌%◌, Bool, true, false, ◌&&◌, ◌||◌, not, List, [], ◌∷◌, ◌++◌, Option,
  none, some, map, eqb, ltb, length, take, is_nil, is_some, if◌then◌else◌,
}
use ruststream_fred.Common.Int.{ℤ}
use ruststream_fred.Common.Order.{Ord, ◌==◌, ◌<?◌, nat_ord, bytes_ord, pair_ord}
use ruststream_fred.Common.Map.{Map, get, insert, remove, contains_key, range_from, range_to}
use ruststream_fred.Server.Text.{Bytes, b}
use ruststream_fred.Server.Text.Decimal.{u64_max, parse_u64}
use ruststream_fred.Server.Value.{Value, array, null, of_list, Error, syntax, id_too_small, panic}
use ruststream_fred.Server.State.{
  EntryId, Fields, Stream, State, Server, Write, fields, owe, now_ms,
}
use ruststream_fred.Server.Exec.{
  Exec, Result, ok, err, ok_or, ◌>>=◌, ◌>>◌, pure, refuse, lift, reads, change, required,
}
use ruststream_fred.Server.Args.{
  left, refuse_arity, word, next_bytes, next_text, next_int, rest, int, bulk, to_usize,
}
use ruststream_fred.Server.Keyspace.{streams, read, write, store, exists}
use ruststream_fred.Server.Counts.{
  next_id, or_empty, group_names, group_readers, recount_group, log,
}
use ruststream_fred.Server.Links.{added_back}
use ruststream_fred.Server.Ids.{zero_id, max_id, id_text, parse_id, range_end}

-- `enum Trim`
pub data Trim : Type 0 where
  max_len : ℕ → Trim
  min_id : EntryId → Trim

-- The loop of `MaxLen`: the first entry goes while there are too many.
unfoldable pub pop_to : ℕ → Map EntryId Fields → Map EntryId Fields
pop_to len [] = []
pop_to len (e ∷ es) = let rest = pop_to len es in if ltb len (length (e ∷ es)) then rest else e ∷ es

unfoldable pub trim_entries : Trim → Map EntryId Fields → Map EntryId Fields
trim_entries (max_len len) es = pop_to len es
trim_entries (min_id min) es = range_from min es

-- `Trim::apply`
unfoldable pub apply_trim : Trim → Stream → ℕ × Stream
apply_trim trim s =
    let kept = trim_entries trim s.entries in
    (length s.entries - length kept, record s { entries = kept })

abbrev pub apply_if : Option Trim → Stream → ℕ × Stream
apply_if none s = (0, s)
apply_if (some trim) s = apply_trim trim s

-- `strip_suffix("-*")`
strip_star : Bytes → Option Bytes
strip_star [] = none
strip_star (c ∷ cs) =
    let rest = strip_star cs in
    if (c ∷ cs) == b "-*" then some [] else elim rest [ none ↦ none | some x ↦ some (c ∷ x) ]

abbrev at_millisecond : EntryId → Option ℕ → Result EntryId
at_millisecond last none = err syntax
at_millisecond last (some ms) = ok (if eqb ms last.0 then next_id last else (ms, 0))

abbrev explicit_id : Bytes → EntryId → Option Bytes → Result EntryId
explicit_id text last none = parse_id text
explicit_id text last (some ms) = at_millisecond last (parse_u64 ms)

-- The id that `XADD` asks for.
unfoldable pub requested_id : Bytes → ℕ → EntryId → Result EntryId
unfolding strip_star
requested_id text now last =
    if text == b "*"
    then ok (if ltb last.0 now then (now, 0) else next_id last)
    else explicit_id text last (strip_star text)

abbrev checked : EntryId → Result EntryId → Result EntryId
checked last (err e) = err e
checked last (ok id) = if not (last <? id) || id == zero_id then err id_too_small else ok id

-- The id of the new entry, refused unless it lies above the last one.
unfoldable pub new_id : Bytes → ℕ → EntryId → Result EntryId
new_id text now last = checked last (requested_id text now last)

-- `chunks(2)`, of an even number of values
unfoldable pub pairs : List Bytes → Fields
pairs (x ∷ y ∷ rest) = (x, y) ∷ pairs rest
pairs _ = []

unfoldable pub append_entry : EntryId → Fields → Stream → Stream
append_entry id entry s = record s { entries = insert id entry s.entries; last = id }

abbrev pub flat_fields : Fields → List Value
flat_fields [] = []
flat_fields ((f, v) ∷ rest) = bulk f ∷ bulk v ∷ flat_fields rest

-- `entry_value`
abbrev pub entry_value : EntryId → Fields → List Value
entry_value id entry = id_text id ∷ array (of_list (flat_fields entry)) ∷ []

abbrev pub entries_of : Option Stream → Map EntryId Fields
entries_of none = []
entries_of (some s) = s.entries

-- `COUNT`, where a negative count is none and no `COUNT` is no bound.
abbrev pub bounded_by : {A : Type 0} → Option ℕ → List A → List A
bounded_by none xs = xs
bounded_by (some n) xs = take n xs

abbrev pub usize_or_zero : Option ℕ → ℕ
usize_or_zero none = 0
usize_or_zero (some n) = n

abbrev pub reversed : {A : Type 0} → Bool → List A → List A
reversed false xs = xs
reversed true [] = []
reversed true (x ∷ xs) = reversed true xs ++ x ∷ []

-- The entries that `XRANGE` and `XREVRANGE` pick.
unfoldable pub pick_range :
    EntryId → EntryId → Option ℕ → Bool → Map EntryId Fields → Map EntryId Fields
pick_range start end count reverse es =
    if end <? start
    then []
    else bounded_by count (reversed reverse (range_to end (range_from start es)))

unfoldable pub entry_values : Map EntryId Fields → List Value
entry_values [] = []
entry_values ((id, entry) ∷ es) = array (of_list (entry_value id entry)) ∷ entry_values es

-- `.map(parse).collect::<Result<Vec<Id>, Error>>()`: the bytes that are no text are no digits.
unfoldable pub parse_ids : List Bytes → Result (List EntryId)
parse_ids [] = ok []
parse_ids (x ∷ xs) = elim (parse_id x) [
  | err e ↦ err e
  | ok id ↦ elim (parse_ids xs) [ err e ↦ err e | ok ids ↦ ok (id ∷ ids) ]
]

unfoldable pub remove_all : {V : Type 0} → List EntryId → Map EntryId V → ℕ × Map EntryId V
remove_all [] es = (0, es)
remove_all (id ∷ ids) es =
    let (n, es') = remove_all ids (remove id es) in ((if contains_key id es then suc n else n), es')
