-- ===== src/Server/Conservation/Streams.antt =====
-- The balance under the stream commands.
use ruststream_fred.Common.{
  ℕ, ◌+◌, ◌≡◌, true, Bool, List, [], ◌∷◌, Option, none, some, length, arith, if◌then◌else◌,
}
use ruststream_fred.Common.Order.{pair_ord, bytes_ord, nat_ord}
use ruststream_fred.Common.Map.{get, insert, remove}
use ruststream_fred.Common.Map.Sorted.{
  IsSorted, length-insert, length-remove, insert-IsSorted, remove-IsSorted,
}
use ruststream_fred.Server.Text.{Bytes}
use ruststream_fred.Server.State.{EntryId, State, Server, Slot, Stream, Write, owe, released}
use ruststream_fred.Server.Exec.{change}
use ruststream_fred.Server.Exec.Keeps.{Keeps, change-Keeps}
use ruststream_fred.Server.Args.Laws.{args_rules}
use ruststream_fred.Server.Counts.{or_empty, log}
use ruststream_fred.Server.Links.{added_back}
use ruststream_fred.Server.Counts.Sizes.{sum_by-insert, AllValues-insert}
use ruststream_fred.Server.Counts.Balance.{
  IsCounted, recount_group-IsCounted, added_back-IsCounted, owed-IsSorted,
}
use ruststream_fred.Server.Conservation.{counted_rules, log-IsCounted}
use ruststream_fred.Server.Streams.{Trim}
use ruststream_fred.Server.StreamCommands.{
  owe_entry, count_entry, add_entry, xadd, recount_groups, xdel, xtrim, parse_trim, delete_entries,
  trim_stream,
}
use ruststream_fred.Server.Groups.{settle_entry, settle_entries, hand_out_entry}

module _ (server : Server) (installed : server.has_coordinator ≡ true) where
  owe_entry-IsCounted :
      (handed : ℕ) (key : Bytes) (id : EntryId) (group : Bytes) (s : State)
      → IsCounted handed s
      → IsCounted handed (owe_entry server key id group s)
  unfolding owe_entry owe
  owe_entry-IsCounted handed key id group s h =
      let owed = or_empty (get (key, group) s.stream_owed) in
      let sorted : IsSorted owed = owed-IsSorted (key, group) s.stream_owed h.sets_sorted in
      ground (
        arith,
        installed,
        length-insert id tt owed sorted,
        sum_by-insert length (key, group) (insert id tt owed) s.stream_owed h.owed_sorted,
        insert-IsSorted (key, group) (insert id tt owed) s.stream_owed h.owed_sorted,
        AllValues-insert IsSorted (key, group) (insert id tt owed) s.stream_owed
            (insert-IsSorted id tt owed sorted) h.sets_sorted,
      )

  count_entry-IsCounted :
      (handed trimmed : ℕ) (key : Bytes) (id : EntryId) (groups : List Bytes) (s : State)
      → IsCounted handed s
      → IsCounted handed (count_entry server trimmed key id groups s)
  unfolding count_entry
  count_entry-IsCounted handed trimmed key id [] s h = h
  count_entry-IsCounted handed trimmed key id (group ∷ groups) s h =
      count_entry-IsCounted handed trimmed key id groups _ (
        ground (
          arith,
          recount_group-IsCounted server installed key group handed s h,
          owe_entry-IsCounted handed key id group s h,
        ))

  count_entry-Keeps :
      (handed trimmed : ℕ) (key : Bytes) (id : EntryId) (groups : List Bytes)
      → Keeps (IsCounted handed) (change (count_entry server trimmed key id groups))
  count_entry-Keeps handed trimmed key id groups =
      change-Keeps _ (count_entry-IsCounted handed trimmed key id groups)

  added_back-Keeps :
      (handed : ℕ) (key : Bytes) → Keeps (IsCounted handed) (change (added_back server key))
  added_back-Keeps handed key =
      change-Keeps _ (λ s h. added_back-IsCounted server installed key handed s h)

  log-Keeps : (handed : ℕ) (key : Bytes) (w : Write) → Keeps (IsCounted handed) (change (log key w))
  log-Keeps handed key w = change-Keeps _ (log-IsCounted handed key w)

  add_entry-Keeps :
      (handed : ℕ) (key : Bytes) (trim : _) (requested : Bytes) (values : List Bytes)
      → Keeps (IsCounted handed) (add_entry server key trim requested values)
  unfolding add_entry
  add_entry-Keeps handed key trim requested values =
      search (counted_rules, count_entry-Keeps, added_back-Keeps, log-Keeps) depth 12

  parse_trim-Keeps : (handed : ℕ) → Keeps (IsCounted handed) (parse_trim server)
  unfolding parse_trim
  parse_trim-Keeps handed = search (counted_rules, args_rules) depth 12

  pub xadd-Keeps : (handed : ℕ) → Keeps (IsCounted handed) (xadd server)
  unfolding xadd
  xadd-Keeps handed = search (counted_rules, args_rules, add_entry-Keeps, parse_trim-Keeps) depth 12

  recount_groups-IsCounted :
      (handed : ℕ) (key : Bytes) (groups : List Bytes) (s : State)
      → IsCounted handed s
      → IsCounted handed (recount_groups server key groups s)
  unfolding recount_groups
  recount_groups-IsCounted handed key [] s h = h
  recount_groups-IsCounted handed key (group ∷ groups) s h =
      recount_groups-IsCounted handed key groups _
        (recount_group-IsCounted server installed key group handed s h)

  recount_groups-Keeps :
      (handed : ℕ) (key : Bytes) (groups : List Bytes)
      → Keeps (IsCounted handed) (change (recount_groups server key groups))
  recount_groups-Keeps handed key groups =
      change-Keeps _ (recount_groups-IsCounted handed key groups)

  delete_entries-Keeps :
      (handed : ℕ) (key : Bytes) (ids : List EntryId) (o : Option Stream)
      → Keeps (IsCounted handed) (delete_entries server key ids o)
  unfolding delete_entries
  delete_entries-Keeps handed key ids none = search counted_rules
  delete_entries-Keeps handed key ids (some stream) =
      search (counted_rules, recount_groups-Keeps) depth 9

  pub xdel-Keeps : (handed : ℕ) → Keeps (IsCounted handed) (xdel server)
  unfolding xdel
  xdel-Keeps handed = search (counted_rules, args_rules, delete_entries-Keeps) depth 12

  trim_stream-Keeps :
      (handed : ℕ) (key : Bytes) (trim : Trim) (o : Option Stream)
      → Keeps (IsCounted handed) (trim_stream server key trim o)
  unfolding trim_stream
  trim_stream-Keeps handed key trim none = search counted_rules
  trim_stream-Keeps handed key trim (some stream) =
      search (counted_rules, recount_groups-Keeps) depth 9

  pub xtrim-Keeps : (handed : ℕ) → Keeps (IsCounted handed) (xtrim server)
  unfolding xtrim
  xtrim-Keeps handed =
      search (counted_rules, args_rules, trim_stream-Keeps, parse_trim-Keeps) depth 12

  -- The count of an acknowledged entry that was owed is released.
  settle_entry-IsCounted :
      (handed : ℕ) (slot : Slot) (id : EntryId) (s : State)
      → IsCounted handed s
      → IsCounted handed (settle_entry server slot id s)
  unfolding settle_entry released
  settle_entry-IsCounted handed slot id s h =
      let owed = or_empty (get slot s.stream_owed) in
      let sorted : IsSorted owed = owed-IsSorted slot s.stream_owed h.sets_sorted in
      ground (
        arith,
        installed,
        length-remove id owed sorted,
        sum_by-insert length slot (remove id owed) s.stream_owed h.owed_sorted,
        insert-IsSorted slot (remove id owed) s.stream_owed h.owed_sorted,
        AllValues-insert IsSorted slot (remove id owed) s.stream_owed
            (remove-IsSorted id owed sorted) h.sets_sorted,
      )

  pub settle_entries-IsCounted :
      (handed : ℕ) (slot : Slot) (ids : List EntryId) (s : State)
      → IsCounted handed s
      → IsCounted handed (settle_entries server slot ids s)
  unfolding settle_entries
  settle_entries-IsCounted handed slot [] s h = h
  settle_entries-IsCounted handed slot (id ∷ ids) s h =
      settle_entries-IsCounted handed slot ids _ (settle_entry-IsCounted handed slot id s h)

  -- A hand-out to a registered subscription is a delivery handed out; to any other it is none.
  pub hand_out_entry-IsCounted :
      (handed : ℕ) (slot : Slot) (is_registered : Bool) (id : EntryId) (s : State)
      → IsCounted handed s
      → IsCounted
          (if is_registered then handed + 1 else handed)
          (hand_out_entry server slot is_registered id s)
  unfolding hand_out_entry released owe
  hand_out_entry-IsCounted handed slot is_registered id s h =
      let owed = or_empty (get slot s.stream_owed) in
      let sorted : IsSorted owed = owed-IsSorted slot s.stream_owed h.sets_sorted in
      ground (
        arith,
        installed,
        length-remove id owed sorted,
        sum_by-insert length slot (remove id owed) s.stream_owed h.owed_sorted,
        insert-IsSorted slot (remove id owed) s.stream_owed h.owed_sorted,
        AllValues-insert IsSorted slot (remove id owed) s.stream_owed
            (remove-IsSorted id owed sorted) h.sets_sorted,
      )
