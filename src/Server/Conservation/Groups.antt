-- ===== src/Server/Conservation/Groups.antt =====
-- The balance under the commands on consumer groups.
use mathlib.Core.Path.{subst}
use ruststream_fred.Common.{
  ℕ, ◌+◌, ◌≡◌, true, false, Bool, List, [], ◌∷◌, Option, none, some, length, arith,
}
use ruststream_fred.Common.Order.{pair_ord, bytes_ord, nat_ord}
use ruststream_fred.Common.Map.{remove}
use ruststream_fred.Server.Text.{Bytes}
use ruststream_fred.Server.State.{
  EntryId, State, Server, Slot, Stream, Group, Duration, Fire, schedule,
}
use ruststream_fred.Server.Exec.{change}
use ruststream_fred.Server.Exec.Keeps.{Keeps, change-Keeps}
use ruststream_fred.Server.Args.Laws.{args_rules}
use ruststream_fred.Server.Counts.{recount_group, registered}
use ruststream_fred.Server.Counts.Balance.{IsCounted, recount_group-IsCounted}
use ruststream_fred.Server.Conservation.{counted_rules}
use ruststream_fred.Server.Conservation.Streams.{settle_entries-IsCounted, hand_out_entry-IsCounted}
use ruststream_fred.Server.Groups.{
  settle_entries, hand_out_entries, time_claims, time_if, handed_out,
}
use ruststream_fred.Server.GroupCommands.{
  acknowledge, ack_entries, xack, store_group, find_group, create_group, set_group_id,
  destroy_group, create_consumer, delete_consumer, dispatch_group, xgroup, without_group,
  skip_entries_read,
}

timer-IsCounted :
    (handed : ℕ) (wait : Duration) (fire : Fire) (s : State)
    → IsCounted handed s
    → IsCounted handed (schedule wait fire s)
unfolding schedule
timer-IsCounted handed wait fire s h = record {
  owed_sorted = h.owed_sorted;
  sets_sorted = h.sets_sorted;
  lists_sorted = h.lists_sorted;
  holds_sorted = h.holds_sorted;
  links_sorted = h.links_sorted;
  held_sorted = h.held_sorted;
  balance = h.balance;
}

-- The number of deliveries that a hand-out hands out.
abbrev pub handed_to : Bool → ℕ → List EntryId → ℕ
handed_to true handed ids = handed + length ids
handed_to false handed ids = handed

module _ (server : Server) (installed : server.has_coordinator ≡ true) where
  settle_entries-Keeps :
      (handed : ℕ) (slot : Slot) (ids : List EntryId)
      → Keeps (IsCounted handed) (change (settle_entries server slot ids))
  settle_entries-Keeps handed slot ids =
      change-Keeps _ (settle_entries-IsCounted server installed handed slot ids)

  pub store_group-Keeps :
      (handed : ℕ) (key name : Bytes) (stream : Stream) (g : Group)
      → Keeps (IsCounted handed) (store_group server key name stream g)
  unfolding store_group
  store_group-Keeps handed key name stream g = search counted_rules

  acknowledge-Keeps :
      (handed : ℕ) (key name : Bytes) (ids : List EntryId) (o : Option Stream) (p : Option Group)
      → Keeps (IsCounted handed) (acknowledge server key name ids o p)
  unfolding acknowledge
  acknowledge-Keeps handed key name ids (some stream) (some g) =
      search (counted_rules, store_group-Keeps, settle_entries-Keeps) depth 9
  acknowledge-Keeps handed key name ids _ _ = search counted_rules

  ack_entries-Keeps :
      (handed : ℕ) (key name : Bytes) (ids : List EntryId)
      → Keeps (IsCounted handed) (ack_entries server key name ids)
  unfolding ack_entries
  ack_entries-Keeps handed key name ids = search (counted_rules, acknowledge-Keeps) depth 9

  pub xack-Keeps : (handed : ℕ) → Keeps (IsCounted handed) (xack server)
  unfolding xack
  xack-Keeps handed = search (counted_rules, args_rules, ack_entries-Keeps) depth 12

  pub find_group-Keeps :
      (handed : ℕ) (key name command : Bytes)
      → Keeps (IsCounted handed) (find_group server key name command)
  unfolding find_group
  find_group-Keeps handed key name command = search counted_rules depth 9

  skip-Keeps : (handed : ℕ) → Keeps (IsCounted handed) (skip_entries_read server)
  unfolding skip_entries_read
  skip-Keeps handed = search (counted_rules, args_rules) depth 9

  create_group-Keeps :
      (handed : ℕ) (key name : Bytes) → Keeps (IsCounted handed) (create_group server key name)
  unfolding create_group
  create_group-Keeps handed key name =
      search (counted_rules, args_rules, store_group-Keeps, skip-Keeps) depth 14

  set_group_id-Keeps :
      (handed : ℕ) (key name : Bytes) → Keeps (IsCounted handed) (set_group_id server key name)
  unfolding set_group_id
  set_group_id-Keeps handed key name =
      search (counted_rules, args_rules, store_group-Keeps, skip-Keeps) depth 14

  without_group-Keeps :
      (handed : ℕ) (key name : Bytes) (o : Option Stream)
      → Keeps (IsCounted handed) (change (without_group server key name o))
  without_group-Keeps handed key name none = change-Keeps _ (λ s h. h)
  without_group-Keeps handed key name (some stream) = search counted_rules

  forget_claims-Keeps :
      (handed : ℕ) (slot : Slot)
      → Keeps (IsCounted handed) (change (λ s. record s { claim_due = remove slot s.claim_due }))
  forget_claims-Keeps handed slot = change-Keeps _ (λ s h. record {
    owed_sorted = h.owed_sorted;
    sets_sorted = h.sets_sorted;
    lists_sorted = h.lists_sorted;
    holds_sorted = h.holds_sorted;
    links_sorted = h.links_sorted;
    held_sorted = h.held_sorted;
    balance = h.balance;
  })

  destroy_group-Keeps :
      (handed : ℕ) (key name : Bytes) → Keeps (IsCounted handed) (destroy_group server key name)
  unfolding destroy_group
  destroy_group-Keeps handed key name =
      search (counted_rules, without_group-Keeps, forget_claims-Keeps) depth 9

  create_consumer-Keeps :
      (handed : ℕ) (key name : Bytes) → Keeps (IsCounted handed) (create_consumer server key name)
  unfolding create_consumer
  create_consumer-Keeps handed key name =
      search (counted_rules, args_rules, store_group-Keeps, find_group-Keeps) depth 9

  delete_consumer-Keeps :
      (handed : ℕ) (key name : Bytes) → Keeps (IsCounted handed) (delete_consumer server key name)
  unfolding delete_consumer
  delete_consumer-Keeps handed key name =
      search (counted_rules, args_rules, store_group-Keeps, find_group-Keeps) depth 9

  dispatch_group-Keeps :
      (handed : ℕ) (sub : Bytes) (key name : Bytes)
      → Keeps (IsCounted handed) (dispatch_group server sub key name)
  unfolding dispatch_group
  dispatch_group-Keeps handed sub key name =
      search
        (
          counted_rules, create_group-Keeps, set_group_id-Keeps, destroy_group-Keeps,
          create_consumer-Keeps, delete_consumer-Keeps,
        )
        depth 9

  recount_group-Keeps :
      (handed : ℕ) (key name : Bytes)
      → Keeps (IsCounted handed) (change (recount_group server key name))
  recount_group-Keeps handed key name =
      change-Keeps _ (recount_group-IsCounted server installed key name handed)

  pub xgroup-Keeps : (handed : ℕ) (sub : Bytes) → Keeps (IsCounted handed) (xgroup server sub)
  unfolding xgroup
  xgroup-Keeps handed sub =
      search (counted_rules, args_rules, dispatch_group-Keeps, recount_group-Keeps) depth 9

  hand_out_entries-IsCounted :
      (handed : ℕ) (slot : Slot) (is_registered : Bool) (ids : List EntryId) (s : State)
      → IsCounted handed s
      → IsCounted
          (handed_to is_registered handed ids)
          (hand_out_entries server slot is_registered ids s)
  unfolding hand_out_entries
  hand_out_entries-IsCounted handed slot true [] s h = subst (λ n. IsCounted n s) (omega arith) h
  hand_out_entries-IsCounted handed slot false [] s h = h
  hand_out_entries-IsCounted handed slot true (id ∷ ids) s h =
      subst (λ n. IsCounted n (hand_out_entries server slot true (id ∷ ids) s)) (omega arith)
        (hand_out_entries-IsCounted (handed + 1) slot true ids _
          (hand_out_entry-IsCounted server installed handed slot true id s h))
  hand_out_entries-IsCounted handed slot false (id ∷ ids) s h =
      hand_out_entries-IsCounted handed slot false ids _
        (hand_out_entry-IsCounted server installed handed slot false id s h)

  time_claims-IsCounted :
      (handed : ℕ) (key group : Bytes) (min_idle : Duration) (ids : List EntryId) (s : State)
      → IsCounted handed s
      → IsCounted handed (time_claims server key group min_idle ids s)
  unfolding time_claims
  time_claims-IsCounted handed key group min_idle [] s h = h
  time_claims-IsCounted handed key group min_idle (id ∷ ids) s h =
      time_claims-IsCounted handed key group min_idle ids _ (timer-IsCounted handed min_idle _ s h)

  time_if-IsCounted :
      (handed : ℕ) (noack : Bool) (key group : Bytes) (o : Option Duration) (ids : List EntryId)
      (s : State)
      → IsCounted handed s
      → IsCounted handed (time_if server noack key group o ids s)
  time_if-IsCounted handed noack key group none ids s h = h
  time_if-IsCounted handed true key group (some min_idle) ids s h = h
  time_if-IsCounted handed false key group (some min_idle) ids s h =
      time_claims-IsCounted handed key group min_idle ids s h

  -- With a coordinator installed, a hand-out of entries to a registered consumer of the group
  -- raises the deliveries handed out by the number of entries and keeps the balance of the counts;
  -- a hand-out to any other reader keeps the balance with as many handed out as before.
  pub handed_out-IsCounted :
      (handed : ℕ) (key group consumer : Bytes) (ids : List EntryId) (noack : Bool) (s : State)
      → IsCounted handed s
      → IsCounted
          (handed_to (registered key group consumer s) handed ids)
          (handed_out server key group consumer ids noack s)
  unfolding handed_out
  handed_out-IsCounted handed key group consumer ids noack s h =
      time_if-IsCounted _ noack key group _ ids _
        (hand_out_entries-IsCounted handed (key, group) (registered key group consumer s) ids s h)
