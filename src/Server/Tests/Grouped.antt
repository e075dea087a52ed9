-- ===== src/Server/Tests/Grouped.antt =====
-- Reads, acknowledgements and claims at a concrete group.
use ruststream_fred.Common.{
  ℕ, ◌≡◌, ◌≢◌, ◌≤◌, ap, refl, arith, false, true, [], ◌∷◌, some, none, List, length, ◌-◌, take,
  drop,
}
use ruststream_fred.Common.Order.{nat_ord, pair_ord}
use ruststream_fred.Common.Map.{get, keys}
use ruststream_fred.Common.Map.Sorted.{IsSorted}
use ruststream_fred.Server.Text.{b}
use ruststream_fred.Server.State.{EntryId, Duration}
use ruststream_fred.Server.Ids.{max_id}
use ruststream_fred.Server.Ids.Laws.{IsId}
use ruststream_fred.Server.Groups.{claim_stale, redelivered}
use ruststream_fred.Server.Groups.Reads.{AllIds}
use ruststream_fred.Server.GroupReads.{read_new}
use ruststream_fred.Server.GroupReads.Fresh.{entries_above, read_new_once}
use ruststream_fred.Server.Groups.Pel.{get-claim_stale}
use ruststream_fred.Server.Tests.{test_group, test_stream}

entries-IsSorted : IsSorted test_stream.entries
entries-IsSorted = ((refl, (refl, tt)), ((refl, tt), (tt, tt)))

entries_ids : AllIds test_stream.entries
entries_ids =
    let id : (ms seq : ℕ) → ms ≤ 7 → seq ≤ 1 → IsId (ms, seq) × ((ms, seq) ≢ max_id) =
      λ ms seq h h'. (
        record { ms_fits = omega arith; seq_fits = omega arith },
        λ e. omega (arith, ap (λ i. i.0) e),
      ) in
    let five = id 5 0 (omega arith) (omega arith) in
    let six = id 6 0 (omega arith) (omega arith) in
    let seven = id 7 1 (omega arith) (omega arith) in
    (five.0, five.1, (six.0, six.1, (seven.0, seven.1, tt)))

read_new_once_example :
    let read =
      read_new
        (b "bob")
        9
        true
        (record { count = some 1; noack = false; claim = none })
        test_stream
        test_group in
    let room = 1 - length read.0.replies in
    (read.1.ids ≡ keys (take room (entries_above test_group.cursor test_stream.entries)))
    × (entries_above read.1.group.cursor test_stream.entries
        ≡ drop room (entries_above test_group.cursor test_stream.entries))
read_new_once_example =
    read_new_once (b "bob") 9 1 false none test_stream test_group entries-IsSorted entries_ids (
      record { ms_fits = omega arith; seq_fits = omega arith },
      λ e. omega (arith, ap (λ i. i.0) e),
    )

abbrev stale : List (EntryId × Duration)
stale = ((5, 0), 7_000_000) ∷ []

get-claim_stale_example :
    get (5, 0) (claim_stale (b "bob") 9_000_000 test_stream.entries stale test_group).group.pending
    ≡ some (record { consumer = b "bob"; at = 9_000_000; count = 2 })
unfolding get redelivered
get-claim_stale_example =
    get-claim_stale (b "bob") 9_000_000 (5, 0) test_stream.entries stale test_group (refl, tt)
