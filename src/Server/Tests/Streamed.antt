-- ===== src/Server/Tests/Streamed.antt =====
-- Ids, appends and trims at a concrete stream.
use ruststream_fred.Common.{ap, not, ◌≡◌, ◌≢◌, ◌≤◌, refl, arith, false, [], ◌∷◌, ◌++◌, none, some}
use ruststream_fred.Common.Order.{◌≺◌, ◌<?◌, nat_ord, pair_ord}
use ruststream_fred.Common.Map.{get}
use ruststream_fred.Server.Text.{b}
use ruststream_fred.Server.State.{EntryId, Fields}
use ruststream_fred.Server.Exec.{ok}
use ruststream_fred.Server.Counts.{next_id}
use ruststream_fred.Server.Ids.{parse_id, print_id, max_id, zero_id}
use ruststream_fred.Server.Ids.Laws.{IsId, parse_id-print_id, next_id_least}
use ruststream_fred.Server.Streams.{new_id, append_entry, pick_range, requested_id}
use ruststream_fred.Server.Streams.Append.{IsWellFormed, append_entry_last, auto_id}
use ruststream_fred.Server.Streams.Trims.{get-pick_range}
use ruststream_fred.Server.Tests.{test_stream}

seven_one_IsId : IsId (7, 1)
seven_one_IsId = record { ms_fits = omega arith; seq_fits = omega arith }

eight_IsId : IsId (8, 0)
eight_IsId = record { ms_fits = omega arith; seq_fits = omega arith }

seven_one_below_max : (7, 1) ≢ max_id
seven_one_below_max e = omega (arith, ap (λ i. i.0) e)

seven_one_nonzero : (7, 1) ≢ zero_id
seven_one_nonzero e = omega (arith, ap (λ i. i.0) e)

parse_id-print_id_example : parse_id (print_id (7, 1)) ≡ ok (7, 1)
parse_id-print_id_example = parse_id-print_id (7, 1) seven_one_IsId

abbrev after : EntryId
after = (8, 0)

abbrev before : EntryId
before = (7, 1)

next_id_least_example : (after <? next_id before) ≡ not (before <? after)
next_id_least_example = next_id_least before after seven_one_IsId eight_IsId seven_one_below_max

test_stream-IsWellFormed : IsWellFormed test_stream
test_stream-IsWellFormed = record {
  entries_sorted = ((refl, (refl, tt)), ((refl, tt), (tt, tt)));
  up_to_last = (refl, (refl, (refl, tt)));
}

abbrev written : Fields
written = (b "body", b "d") ∷ []

append_entry_last_example :
    (before ≺ after)
    × ((append_entry (8, 0) written test_stream).entries
        ≡ test_stream.entries ++ ((8, 0), written) ∷ [])
    × IsWellFormed (append_entry (8, 0) written test_stream)
unfolding new_id requested_id
append_entry_last_example =
    append_entry_last (b "*") 8 (8, 0) written test_stream test_stream-IsWellFormed refl

auto_id_example : (id : EntryId) × (new_id (b "*") 3 (7, 1) ≡ ok id) × (3 ≤ id.0)
auto_id_example = auto_id 3 (7, 1) seven_one_IsId seven_one_below_max

get-pick_range_example :
    get (6, 0) (pick_range (6, 0) (7, 0) none false test_stream.entries)
    ≡ some ((b "body", b "b") ∷ [])
unfolding get
get-pick_range_example = get-pick_range (6, 0) (7, 0) (6, 0) test_stream.entries
