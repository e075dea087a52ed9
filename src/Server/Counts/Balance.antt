-- ===== src/Server/Counts/Balance.antt =====
-- The balance of the counts: with a coordinator installed, the deliveries counted in flight are
-- those released, those the server still owes, and those handed out.
use ruststream_fred.Common.{
  ℕ, ◌+◌, ◌-◌, ◌≡◌, refl, true, [], Option, none, some, arith, min, length, if◌then◌else◌,
}
use ruststream_fred.Common.Order.{pair_ord, nat_ord, bytes_ord}
use ruststream_fred.Common.Map.{Map, Set, get}
use ruststream_fred.Common.Map.Sorted.{IsSorted, insert-IsSorted}
use ruststream_fred.Server.Text.{Bytes}
use ruststream_fred.Server.State.{EntryId, Link, State, Server, Slot, owe, released}
use ruststream_fred.Server.Counts.{
  or_empty, or_zero, desired_entries, extend, recount_group, recount_list, list_changed, list_read,
  group_readers, new_entries,
}
use ruststream_fred.Server.Links.{added_back}
use ruststream_fred.Server.Keyspace.{list_len}
use ruststream_fred.Server.Counts.Sizes.{
  sum_by, sum_by-insert, AllValues, AllValues-insert, AllValues-get, extend-IsSorted,
  count_missing_union,
}

abbrev pub itself : ℕ → ℕ
itself n = n

abbrev pub held_by : Link → ℕ
held_by l = length l.held

pub record HasSortedHeld (l : Link) : Type 0 where
  pub sorted : IsSorted l.held

-- The deliveries that the server owes: entries of groups, elements of lists, delayed entries on
-- their way back, and due members of linked sets.
abbrev pub outstanding : State → ℕ
outstanding s =
    sum_by length s.stream_owed
    + sum_by itself s.list_owed
    + sum_by itself s.readd_holds
    + sum_by held_by s.links

-- With `handed` deliveries handed out.
pub record IsCounted (handed : ℕ) (s : State) : Type 0 where
  pub owed_sorted : IsSorted s.stream_owed
  pub sets_sorted : AllValues IsSorted s.stream_owed
  pub lists_sorted : IsSorted s.list_owed
  pub holds_sorted : IsSorted s.readd_holds
  pub links_sorted : IsSorted s.links
  pub held_sorted : AllValues HasSortedHeld s.links
  pub balance : s.enqueued ≡ s.consumed + outstanding s + handed

desired_entries-IsSorted :
    (server : Server) (key group : Bytes) (s : State)
    → IsSorted (desired_entries server key group s)
unfolding desired_entries
desired_entries-IsSorted server key group s =
    let fresh =
      if (group_readers key group s).fresh
      then extend [] (new_entries key group server.now s.keys)
      else [] in
    let fresh_sorted : IsSorted fresh =
      ground (arith, extend-IsSorted [] (new_entries key group server.now s.keys)) in
    ground (arith, fresh_sorted, extend-IsSorted fresh (or_empty (get (key, group) s.claim_due)))

or_empty-IsSorted :
    (slot : Slot) (m : Map Slot (Set EntryId)) (o : Option (Set EntryId))
    → AllValues IsSorted m
    → get slot m ≡ o
    → IsSorted (or_empty o)
or_empty-IsSorted slot m none a e = tt
or_empty-IsSorted slot m (some ids) a e = AllValues-get IsSorted slot m a e

pub owed-IsSorted :
    (slot : Slot) (m : Map Slot (Set EntryId))
    → AllValues IsSorted m
    → IsSorted (or_empty (get slot m))
owed-IsSorted slot m a = or_empty-IsSorted slot m (get slot m) a refl

module _ (server : Server) (installed : server.has_coordinator ≡ true) where
  -- With a coordinator installed, recounting a group, which owes what became new or claimable and
  -- releases what is no longer owed, keeps the balance of the counts.
  pub recount_group-IsCounted :
      (key group : Bytes) (handed : ℕ) (s : State)
      → IsCounted handed s
      → IsCounted handed (recount_group server key group s)
  unfolding recount_group owe released
  recount_group-IsCounted key group handed s h = ground (
    arith,
    installed,
    sum_by-insert length (key, group) (desired_entries server key group s) s.stream_owed
        h.owed_sorted,
    count_missing_union (desired_entries server key group s)
        (or_empty (get (key, group) s.stream_owed)) (desired_entries-IsSorted server key group s)
        (owed-IsSorted (key, group) s.stream_owed h.sets_sorted),
    insert-IsSorted (key, group) (desired_entries server key group s) s.stream_owed h.owed_sorted,
    AllValues-insert IsSorted (key, group) (desired_entries server key group s) s.stream_owed
        (desired_entries-IsSorted server key group s) h.sets_sorted,
  )

  pub recount_list-IsCounted :
      (key : Bytes) (handed : ℕ) (s : State)
      → IsCounted handed s
      → IsCounted handed (recount_list server key s)
  unfolding recount_list owe released
  recount_list-IsCounted key handed s h =
      let desired = if list_read key s then list_len key server.now s.keys else 0 in
      ground (
        arith,
        installed,
        sum_by-insert itself key desired s.list_owed h.lists_sorted,
        insert-IsSorted key desired s.list_owed h.lists_sorted,
      )

  -- With a coordinator installed, and the counts balanced with `handed` deliveries handed out,
  -- telling the counts of `pushed` and `popped` elements keeps the balance: with `popped` more
  -- handed out where a subscription reads the list, and as many as before where none does.
  pub list_changed-IsCounted :
      (key : Bytes) (pushed popped : ℕ) (handed : ℕ) (s : State)
      → IsCounted handed s
      → IsCounted
          (if list_read key s then handed + popped else handed)
          (list_changed server key pushed popped s)
  unfolding list_changed owe released
  list_changed-IsCounted key pushed popped handed s h = ground (
    arith,
    installed,
    sum_by-insert itself key
        (or_zero (get key s.list_owed)
          + pushed
          - min popped (or_zero (get key s.list_owed) + pushed))
        s.list_owed h.lists_sorted,
    insert-IsSorted key
        (or_zero (get key s.list_owed)
          + pushed
          - min popped (or_zero (get key s.list_owed) + pushed))
        s.list_owed h.lists_sorted,
  )

  pub added_back-IsCounted :
      (key : Bytes) (handed : ℕ) (s : State)
      → IsCounted handed s
      → IsCounted handed (added_back server key s)
  unfolding added_back released
  added_back-IsCounted key handed s h = ground (
    arith,
    installed,
    sum_by-insert itself key (or_zero (get key s.readd_holds) - 1) s.readd_holds h.holds_sorted,
    insert-IsSorted key (or_zero (get key s.readd_holds) - 1) s.readd_holds h.holds_sorted,
  )
