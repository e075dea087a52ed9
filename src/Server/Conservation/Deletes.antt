-- ===== src/Server/Conservation/Deletes.antt =====
-- The balance when a key goes: what was owed for it is released.
use ruststream_fred.Common.{
  ℕ, zero, suc, ◌≡◌, Bool, true, false, List, [], ◌∷◌, Option, none, some, arith, if◌then◌else◌,
}
use ruststream_fred.Common.Int.{ℤ, pos, negsuc}
use ruststream_fred.Common.Order.{bytes_ord, pair_ord}
use ruststream_fred.Common.Map.{Map, Set}
use ruststream_fred.Server.Text.{Bytes}
use ruststream_fred.Server.State.{State, Server, Data, EntryId, Slot, Duration, Fire, schedule}
use ruststream_fred.Server.Keyspace.{take_out}
use ruststream_fred.Server.Keys.{drop_groups, forget_taken, delete, delete_all, arm_expiry, expire}
use ruststream_fred.Server.KeyCommands.{make_room}
use ruststream_fred.Server.Counts.Balance.{
  IsCounted, recount_list-IsCounted, recount_group-IsCounted,
}
use ruststream_fred.Server.Links.Balance.{link_dropped-IsCounted}
use ruststream_fred.Server.Conservation.{keys-IsCounted}

pub claims-IsCounted :
    (handed : ℕ) (s : State) (due : Map Slot (Set EntryId))
    → IsCounted handed s
    → IsCounted handed (record s { claim_due = due })
claims-IsCounted handed s due h = record {
  owed_sorted = h.owed_sorted;
  sets_sorted = h.sets_sorted;
  lists_sorted = h.lists_sorted;
  holds_sorted = h.holds_sorted;
  links_sorted = h.links_sorted;
  held_sorted = h.held_sorted;
  balance = h.balance;
}

pub timers-IsCounted :
    (handed : ℕ) (wait : Duration) (fire : Fire) (s : State)
    → IsCounted handed s
    → IsCounted handed (schedule wait fire s)
unfolding schedule
timers-IsCounted handed wait fire s h = record {
  owed_sorted = h.owed_sorted;
  sets_sorted = h.sets_sorted;
  lists_sorted = h.lists_sorted;
  holds_sorted = h.holds_sorted;
  links_sorted = h.links_sorted;
  held_sorted = h.held_sorted;
  balance = h.balance;
}

timer_if-IsCounted :
    (handed : ℕ) (scheduled : Bool) (wait : Duration) (fire : Fire) (s : State)
    → IsCounted handed s
    → IsCounted handed (if scheduled then schedule wait fire s else s)
timer_if-IsCounted handed true wait fire s h = timers-IsCounted handed wait fire s h
timer_if-IsCounted handed false wait fire s h = h

module _ (server : Server) (installed : server.has_coordinator ≡ true) (handed : ℕ) where
  drop_groups-IsCounted :
      (key : Bytes) (groups : List Bytes) (s : State)
      → IsCounted handed s
      → IsCounted handed (drop_groups server key groups s)
  unfolding drop_groups
  drop_groups-IsCounted key [] s h = h
  drop_groups-IsCounted key (group ∷ groups) s h =
      drop_groups-IsCounted key groups _ (
        recount_group-IsCounted server installed key group handed _ (claims-IsCounted handed s _ h))

  forgotten-IsCounted :
      (key : Bytes) (o : Option Data) (s : State)
      → IsCounted handed s
      → IsCounted handed (forget_taken server key o s)
  forgotten-IsCounted key none s h = h
  forgotten-IsCounted key (some (Data.str x)) s h = h
  forgotten-IsCounted key (some (Data.hash x)) s h = h
  forgotten-IsCounted key (some (Data.set x)) s h = h
  forgotten-IsCounted key (some (Data.list x)) s h =
      recount_list-IsCounted server installed key handed s h
  forgotten-IsCounted key (some (Data.zset x)) s h =
      link_dropped-IsCounted server installed key handed s h
  forgotten-IsCounted key (some (Data.stream x)) s h = drop_groups-IsCounted key _ s h

  delete-IsCounted :
      (key : Bytes) (s : State) → IsCounted handed s → IsCounted handed (delete server key s).1
  unfolding delete
  delete-IsCounted key s h =
      let (taken, kept) = take_out key server.now s.keys in
      forgotten-IsCounted key taken _ (keys-IsCounted handed s kept h)

  pub delete_all-IsCounted :
      (keys : List Bytes) (s : State)
      → IsCounted handed s
      → IsCounted handed (delete_all server keys s).1
  unfolding delete_all
  delete_all-IsCounted [] s h = h
  delete_all-IsCounted (key ∷ keys) s h = delete_all-IsCounted keys _ (delete-IsCounted key s h)

  arm_expiry-IsCounted :
      (key : Bytes) (millis : ℕ) (s : State)
      → IsCounted handed s
      → IsCounted handed (arm_expiry server key millis s).1
  unfolding arm_expiry
  arm_expiry-IsCounted key millis s h = search (timer_if-IsCounted, keys-IsCounted)

  pub expire-IsCounted :
      (key : Bytes) (millis : ℤ) (s : State)
      → IsCounted handed s
      → IsCounted handed (expire server key millis s).1
  unfolding expire
  expire-IsCounted key (pos (suc n)) s h = arm_expiry-IsCounted key (suc n) s h
  expire-IsCounted key (pos zero) s h = delete-IsCounted key s h
  expire-IsCounted key (negsuc n) s h = delete-IsCounted key s h

  pub make_room-IsCounted :
      (key : Bytes) (s : State) → IsCounted handed s → IsCounted handed (make_room server key s)
  unfolding make_room
  make_room-IsCounted key s h = ground (arith, delete-IsCounted key s h, h)
