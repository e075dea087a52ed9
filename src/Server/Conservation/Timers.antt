-- ===== src/Server/Conservation/Timers.antt =====
-- The balance when a timer fires, and when a subscription comes or goes.
use ruststream_fred.Common.{
  ℕ, ◌-◌, ◌≡◌, refl, Bool, true, false, ◌&&◌, [], ◌∷◌, Option, none, some, arith, length, leb,
  is_some, if◌then◌else◌,
}
use ruststream_fred.Common.Order.{nat_ord, bytes_ord, pair_ord}
use ruststream_fred.Common.Map.{Map, get, insert, contains_key}
use ruststream_fred.Common.Map.Sorted.{IsSorted, length-insert, insert-IsSorted}
use ruststream_fred.Server.Text.{Bytes}
use ruststream_fred.Server.Value.{Double}
use ruststream_fred.Server.State.{
  State, Server, Link, LinkKind, EntryId, Instant, Duration, Slot, Pending, Fire, owe,
  claim_came_due,
}
use ruststream_fred.Server.Keyspace.{streams, read, flat}
use ruststream_fred.Server.Counts.{or_empty, group_readers}
use ruststream_fred.Server.Counts.Balance.{IsCounted, HasSortedHeld, held_by, owed-IsSorted}
use ruststream_fred.Server.Counts.Sizes.{sum_by-insert, AllValues-insert, AllValues-get}
use ruststream_fred.Server.Links.{link_due, marked_due}
use ruststream_fred.Server.Links.Balance.{prune_link-IsCounted}
use ruststream_fred.Server.Groups.{came_due, arm_each, arm_claims, group_of, pending_at, is_instant}
use ruststream_fred.Server.World.{linked, fire}
use ruststream_fred.Server.Conservation.Deletes.{claims-IsCounted, timers-IsCounted}

-- A set that is linked anew has no members held.
pub linked-IsCounted :
    (handed : ℕ) (o : Option Link) (zset target : Bytes) (kind : LinkKind) (s : State)
    → get zset s.links ≡ o
    → IsCounted handed s
    → IsCounted handed (linked o zset target kind s)
unfolding linked
linked-IsCounted handed (some link) zset target kind s e h = h
linked-IsCounted handed none zset target kind s e h =
    let link : Link = record { target = target; kind = kind; due = []; held = [] } in
    ground (
      arith,
      e,
      sum_by-insert held_by zset link s.links h.links_sorted,
      insert-IsSorted zset link s.links h.links_sorted,
      AllValues-insert HasSortedHeld zset link s.links (record { sorted = tt }) h.held_sorted,
    )

module _ (server : Server) (installed : server.has_coordinator ≡ true) (handed : ℕ) where
  -- One more entry owed to a group, counted unless it was owed already.
  owed_more-IsCounted :
      (slot : Slot) (id : EntryId) (s : State)
      → IsCounted handed s
      → (let owed = or_empty (get slot s.stream_owed) in
          IsCounted handed (
            owe server
              (if contains_key id owed then 0 else 1)
              (record s { stream_owed = insert slot (insert id tt owed) s.stream_owed })))
  unfolding owe
  owed_more-IsCounted slot id s h =
      let owed = or_empty (get slot s.stream_owed) in
      let sorted : IsSorted owed = owed-IsSorted slot s.stream_owed h.sets_sorted in
      ground (
        arith,
        installed,
        length-insert id tt owed sorted,
        sum_by-insert length slot (insert id tt owed) s.stream_owed h.owed_sorted,
        insert-IsSorted slot (insert id tt owed) s.stream_owed h.owed_sorted,
        AllValues-insert IsSorted slot (insert id tt owed) s.stream_owed
            (insert-IsSorted id tt owed sorted) h.sets_sorted,
      )

  either-IsCounted :
      (chosen : Bool) (s t : State)
      → IsCounted handed s
      → IsCounted handed t
      → IsCounted handed (if chosen then s else t)
  either-IsCounted true s t h k = h
  either-IsCounted false s t h k = k

  pub came_due-IsCounted :
      (key group : Bytes) (id : EntryId) (at : Instant) (s : State)
      → IsCounted handed s
      → IsCounted handed (came_due server key group id at s)
  unfolding came_due
  came_due-IsCounted key group id at s h =
      let due =
        insert (key, group) (insert id tt (or_empty (get (key, group) s.claim_due))) s.claim_due in
      let claimed = claims-IsCounted handed s due h in
      let g = group_of group (flat (read streams key server.now s.keys)) in
      let readers = group_readers key group (record s { claim_due = due }) in
      either-IsCounted (is_instant at (pending_at id g)) _ s
        (either-IsCounted (readers.any && is_some readers.claim) _ _
          (owed_more-IsCounted (key, group) id _ claimed) claimed)
        h

  arm_each-IsCounted :
      (key group : Bytes) (min_idle : Duration) (ps : Map EntryId Pending) (s : State)
      → IsCounted handed s
      → IsCounted handed (arm_each server key group min_idle ps s)
  unfolding arm_each
  arm_each-IsCounted key group min_idle [] s h = h
  arm_each-IsCounted key group min_idle ((id, p) ∷ ps) s h =
      arm_each-IsCounted key group min_idle ps _ (
        either-IsCounted (leb min_idle (server.now - p.at)) _ _
          (came_due-IsCounted key group id p.at s h)
          (timers-IsCounted handed (min_idle - (server.now - p.at))
            (claim_came_due key group id p.at) s h))

  pub arm_claims-IsCounted :
      (key group : Bytes) (min_idle : Duration) (s : State)
      → IsCounted handed s
      → IsCounted handed (arm_claims server key group min_idle s)
  unfolding arm_claims
  arm_claims-IsCounted key group min_idle s h = arm_each-IsCounted key group min_idle _ s h

  marked_due-IsCounted :
      (zset member : Bytes) (o : Option Link) (s : State)
      → get zset s.links ≡ o
      → IsCounted handed s
      → IsCounted handed (marked_due server zset member o s)
  unfolding owe
  marked_due-IsCounted zset member none s e h = h
  marked_due-IsCounted zset member (some link) s e h =
      let sorted = (AllValues-get HasSortedHeld zset s.links h.held_sorted e).sorted in
      let due = insert member tt link.due in
      let held = insert member tt link.held in
      let waiting : Link = record link { due = due } in
      let counted : Link = record link { due = due; held = held } in
      ground (
        arith,
        installed,
        e,
        length-insert member tt link.held sorted,
        sum_by-insert held_by zset waiting s.links h.links_sorted,
        sum_by-insert held_by zset counted s.links h.links_sorted,
        insert-IsSorted zset waiting s.links h.links_sorted,
        insert-IsSorted zset counted s.links h.links_sorted,
        AllValues-insert HasSortedHeld zset waiting s.links (record { sorted = sorted })
            h.held_sorted,
        AllValues-insert HasSortedHeld zset counted s.links
            (record { sorted = insert-IsSorted member tt link.held sorted }) h.held_sorted,
      )

  link_due-IsCounted :
      (zset member : Bytes) (score : Double) (s : State)
      → IsCounted handed s
      → IsCounted handed (link_due server zset member score s)
  unfolding link_due
  link_due-IsCounted zset member score s h =
      either-IsCounted _ _ s (marked_due-IsCounted zset member (get zset s.links) s refl h) h

  -- With a coordinator installed, every timer that fires (a claim or a delayed member that comes
  -- due, a linked set that expires) keeps the balance of the counts, whatever happened since it was
  -- scheduled.
  pub fire-IsCounted :
      (f : Fire) (s : State) → IsCounted handed s → IsCounted handed (fire server f s)
  unfolding fire
  fire-IsCounted (Fire.prune_link zset) s h = prune_link-IsCounted server installed zset handed s h
  fire-IsCounted (Fire.claim_came_due key group id at) s h = came_due-IsCounted key group id at s h
  fire-IsCounted (Fire.link_due zset member score) s h = link_due-IsCounted zset member score s h
