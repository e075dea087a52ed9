-- ===== src/Server/Ids/Laws.antt =====
-- The order of ids under `next` and `previous`, and the round trip through text.
use ruststream_fred.Common.{◌≤◌, ◌≡◌, ◌≢◌, refl, not, [], ◌∷◌, ◌++◌, some, arith}
use ruststream_fred.Common.Order.{◌<?◌, nat_ord, pair_ord}
use ruststream_fred.Server.Text.{Bytes}
use ruststream_fred.Server.Text.Decimal.{
  u64_max, print, AllDigits, print-AllDigits, parse_u64-print,
}
use ruststream_fred.Server.Exec.{ok}
use ruststream_fred.Server.State.{EntryId}
use ruststream_fred.Server.Counts.{next_id}
use ruststream_fred.Server.Ids.{print_id, split_once, parse_id, previous, max_id, zero_id}

-- Both parts are `u64` values.
pub record IsId (id : EntryId) : Type 0 where
  pub ms_fits : id.0 ≤ u64_max
  pub seq_fits : id.1 ≤ u64_max

split_once-digits : (xs ys : Bytes) → AllDigits xs → split_once (xs ++ (b'-' ∷ ys)) ≡ some (xs, ys)
unfolding split_once
split_once-digits [] ys a = refl
split_once-digits (x ∷ xs) ys a = ground (arith, split_once-digits xs ys a.2)

-- An entry id of two 64-bit numbers is read back from the text that the server prints for it.
pub parse_id-print_id : (id : EntryId) → IsId id → parse_id (print_id id) ≡ ok id
unfolding parse_id print_id
parse_id-print_id (ms, seq) h =
    rw (split_once-digits (print ms) (print seq) (print-AllDigits ms))
      (rw (parse_u64-print ms h.ms_fits) (rw (parse_u64-print seq h.seq_fits) refl))

-- Among 64-bit ids, for an id below the greatest, another is below its `next` exactly where the id
-- is not below that other: nothing lies between an id and its `next`.
pub next_id_least :
    (id other : EntryId)
    → IsId id
    → IsId other
    → id ≢ max_id
    → (other <? next_id id) ≡ not (id <? other)
unfolding next_id
next_id_least (ms, seq) (ms', seq') h h' ne = ground arith

-- For a 64-bit id other than the greatest, `previous` gives back the id from its `next`.
pub previous-next_id : (id : EntryId) → IsId id → id ≢ max_id → previous (next_id id) ≡ id
unfolding next_id previous
previous-next_id (ms, seq) h ne = ground arith

-- For a 64-bit id other than zero, `next` gives back the id from its `previous`.
pub next_id-previous : (id : EntryId) → IsId id → id ≢ zero_id → next_id (previous id) ≡ id
unfolding next_id previous
next_id-previous (ms, seq) h ne = ground arith
