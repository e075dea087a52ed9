-- ===== src/Server/Ids.antt =====
-- in_process/streams.rs: entry ids and the ends of a range of them. `Id::next` is `next_id`.
pub mod Laws
use ruststream_fred.Common.{
  ℕ, ◌+◌, ◌-◌, Bool, true, false, ◌&&◌, not, List, [], ◌∷◌, ◌++◌, Option, none, some, eqb, ltb,
  if◌then◌else◌,
}
use ruststream_fred.Common.Order.{Ord, ◌==◌, bytes_ord}
use ruststream_fred.Server.Text.{Bytes, b, has_byte}
use ruststream_fred.Server.Text.Decimal.{u64_max, print, parse_u64}
use ruststream_fred.Server.Value.{Value, string, invalid_id}
use ruststream_fred.Server.State.{EntryId}
use ruststream_fred.Server.Exec.{Result, ok, err, ok_or}
use ruststream_fred.Server.Counts.{next_id}

-- `Id::MAX`
abbrev pub max_id : EntryId
max_id = (u64_max, u64_max)

-- `Id::default()`
abbrev pub zero_id : EntryId
zero_id = (0, 0)

-- `Display`
unfoldable pub print_id : EntryId → Bytes
print_id (ms, seq) = print ms ++ (b'-' ∷ print seq)

-- `Id::text`
abbrev pub id_text : EntryId → Value
id_text id = string (print_id id)

-- `split_once('-')`
unfoldable pub split_once : Bytes → Option (Bytes × Bytes)
split_once [] = none
split_once (c ∷ cs) =
    let rest = split_once cs in
    if eqb c b'-' then some ([], cs) else elim rest [ none ↦ none | some (x, y) ↦ some (c ∷ x, y) ]

abbrev both : Option ℕ → Option ℕ → Option EntryId
both (some ms) (some seq) = some (ms, seq)
both _ _ = none

abbrev id_of : Bytes → Option (Bytes × Bytes) → Option EntryId
id_of text none = both (parse_u64 text) (some 0)
id_of text (some (ms, seq)) = both (parse_u64 ms) (parse_u64 seq)

-- `FromStr`
unfoldable pub parse_id : Bytes → Result EntryId
parse_id text = ok_or (id_of text (split_once text)) invalid_id

-- `previous`
unfoldable pub previous : EntryId → EntryId
previous (ms, seq) = if ltb 0 seq then (ms, seq - 1) else (ms - 1, u64_max)

abbrev exclusive : Bool → Result EntryId → Result EntryId
exclusive start (err e) = err e
exclusive start (ok id) = ok (if start then next_id id else previous id)

abbrev widened : Bool → Result EntryId → Result EntryId
widened whole (err e) = err e
widened whole (ok (ms, seq)) = ok (if whole then (ms, u64_max) else (ms, seq))

-- `range_end`
unfoldable pub range_end : Bytes → EntryId → Bool → Result EntryId
range_end [] open_end start = parse_id []
range_end (c ∷ cs) open_end start =
    if (c ∷ cs) == b "-"
    then ok open_end
    else if (c ∷ cs) == b "+"
    then ok open_end
    else if eqb c b'('
    then exclusive start (parse_id cs)
    else widened (not start && not (has_byte b'-' (c ∷ cs))) (parse_id (c ∷ cs))
