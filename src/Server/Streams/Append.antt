-- ===== src/Server/Streams/Append.antt =====
-- `XADD` appends: ids rise, and an entry once written stays where it is.
use ruststream_fred.Common.{ℕ, ◌≤◌, ◌≡◌, ◌≢◌, refl, false, [], ◌∷◌, ◌++◌, arith, ltb, if◌then◌else◌}
use ruststream_fred.Common.Order.{◌≺◌, ◌<?◌, nat_ord, pair_ord, bytes_ord}
use ruststream_fred.Common.Map.{Map, insert}
use ruststream_fred.Common.Map.Sorted.{IsSorted, insert-IsSorted}
use ruststream_fred.Server.Text.{Bytes, b}
use ruststream_fred.Server.State.{EntryId, Fields, Stream}
use ruststream_fred.Server.Exec.{Result, ok, err}
use ruststream_fred.Server.Counts.{next_id}
use ruststream_fred.Server.Ids.{max_id}
use ruststream_fred.Server.Ids.Laws.{IsId}
use ruststream_fred.Server.Streams.{requested_id, checked, new_id, append_entry}

-- No id in the map lies above `last`.
abbrev pub UpTo : {V : Type 0} → EntryId → Map EntryId V → Type 0
UpTo last [] = Unit
UpTo last ((id, v) ∷ m) = ((last <? id) ≡ false) × UpTo last m

pub record IsWellFormed (s : Stream) : Type 0 where
  pub entries_sorted : IsSorted s.entries
  pub up_to_last : UpTo s.last s.entries

pub up_to_lt : (id last new : EntryId) → (last <? id) ≡ false → last ≺ new → id ≺ new
up_to_lt (a, c) (d, e) (f, g) h k = ground arith

not_above_self : (id : EntryId) → (id <? id) ≡ false
not_above_self (a, c) = ground arith

not_above_lt : (id last : EntryId) → id ≺ last → (last <? id) ≡ false
not_above_lt (a, c) (d, e) h = ground arith

-- An insertion above every key is at the end.
insert_last :
    {V : Type 0} (last id : EntryId) (v : V) (m : Map EntryId V)
    → UpTo last m
    → last ≺ id
    → insert id v m ≡ m ++ (id, v) ∷ []
unfolding insert
insert_last last id v [] u h = refl
insert_last last id v ((j, w) ∷ m) u h = ground (
  arith,
  insert_last last id v m u.1 h,
  up_to_lt j last id u.0 h,
  (pair_ord {A = ℕ} {B = ℕ}).cmp_swap j id,
)

UpTo-append :
    {V : Type 0} (last id : EntryId) (v : V) (m : Map EntryId V)
    → UpTo last m
    → last ≺ id
    → UpTo id (m ++ (id, v) ∷ [])
UpTo-append last id v [] u h = (not_above_self id, tt)
UpTo-append last id v ((j, w) ∷ m) u h =
    (not_above_lt j id (up_to_lt j last id u.0 h), UpTo-append last id v m u.1 h)

checked-lt : (last id : EntryId) (r : Result EntryId) → checked last r ≡ ok id → last ≺ id
checked-lt last id (err e) h = cc
checked-lt last id (ok new) h = ground arith

-- On a stream with sorted entries, none above its last id, an id that `XADD` accepts lies above the
-- last id, its entry is appended behind every entry that was there, and the stream again has sorted
-- entries, none above its last id.
pub append_entry_last :
    (text : Bytes) (now : ℕ) (id : EntryId) (entry : Fields) (s : Stream)
    → IsWellFormed s
    → new_id text now s.last ≡ ok id
    → (s.last ≺ id)
      × ((append_entry id entry s).entries ≡ s.entries ++ (id, entry) ∷ [])
      × IsWellFormed (append_entry id entry s)
unfolding append_entry new_id
append_entry_last text now id entry s w h =
    let above : s.last ≺ id = checked-lt s.last id (requested_id text now s.last) h in
    let behind = insert_last s.last id entry s.entries w.up_to_last above in
    (
      above,
      behind,
      record {
        entries_sorted = insert-IsSorted id entry s.entries w.entries_sorted;
        up_to_last = rw behind (UpTo-append s.last id entry s.entries w.up_to_last above);
      },
    )

-- With `*` and a last id of 64-bit numbers below the greatest, `XADD` always finds an id that it
-- accepts, and the id's milliseconds are not before the clock.
pub auto_id :
    (now : ℕ) (last : EntryId)
    → IsId last
    → last ≢ max_id
    → (id : EntryId) × (new_id (b "*") now last ≡ ok id) × (now ≤ id.0)
unfolding new_id requested_id next_id
auto_id now (ms, seq) h ne =
    (if ltb ms now then (now, 0) else next_id (ms, seq), ground arith, ground arith)
