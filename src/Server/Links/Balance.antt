-- ===== src/Server/Links/Balance.antt =====
-- The balance of the counts under what happens to linked sets.
use ruststream_fred.Common.{
  ℕ, ◌+◌, ◌≤◌, ◌≡◌, is_some, refl, Bool, true, [], ◌∷◌, Option, none, some, arith, length,
}
use ruststream_fred.Common.Order.{pair_ord, nat_ord, bytes_ord}
use ruststream_fred.Common.Map.{Set, get, remove}
use ruststream_fred.Common.Map.Sorted.{
  Above, IsSorted, length-remove, remove-IsSorted, insert-IsSorted,
}
use ruststream_fred.Server.Text.{Bytes}
use ruststream_fred.Server.State.{Link, State, Server, released}
use ruststream_fred.Server.Counts.{or_zero}
use ruststream_fred.Server.Links.{
  link_removed, link_dropped, prune_link, unlinked, dropped, pruned, keep_members,
}
use ruststream_fred.Server.Keyspace.{zscore}
use ruststream_fred.Server.Counts.Sizes.{sum_by-insert, AllValues-insert, AllValues-get}
use ruststream_fred.Server.Counts.Balance.{IsCounted, HasSortedHeld, held_by, itself}

keep_members-Above :
    (p : Bytes → Bool) (k : Bytes) (ms : Set Bytes) → Above k ms → Above k (keep_members p ms)
unfolding keep_members
keep_members-Above p k [] a = tt
keep_members-Above p k ((m, u) ∷ ms) a = ground (arith, keep_members-Above p k ms a.1)

keep_members-IsSorted :
    (p : Bytes → Bool) (ms : Set Bytes) → IsSorted ms → IsSorted (keep_members p ms)
unfolding keep_members
keep_members-IsSorted p [] a = tt
keep_members-IsSorted p ((m, u) ∷ ms) a =
    ground (arith, keep_members-IsSorted p ms a.1, keep_members-Above p m ms a.0)

length-keep_members : (p : Bytes → Bool) (ms : Set Bytes) → length (keep_members p ms) ≤ length ms
unfolding keep_members
length-keep_members p [] = omega arith
length-keep_members p ((m, u) ∷ ms) = ground (arith, length-keep_members p ms)

module _ (server : Server) (installed : server.has_coordinator ≡ true) where
  -- The count of a held member moves to the holds of its target, or is released.
  unlinked-IsCounted :
      (zset member : Bytes) (o : Option Link) (handed : ℕ) (s : State)
      → get zset s.links ≡ o
      → IsCounted handed s
      → IsCounted handed (unlinked server zset member o s)
  unfolding released
  unlinked-IsCounted zset member none handed s e h = h
  unlinked-IsCounted zset member (some link) handed s e h =
      let held_sorted = (AllValues-get HasSortedHeld zset s.links h.held_sorted e).sorted in
      let link' : Link = record link {
        due = remove member link.due;
        held = remove member link.held;
      } in
      ground (
        arith,
        installed,
        e,
        length-remove member link.held held_sorted,
        sum_by-insert held_by zset link' s.links h.links_sorted,
        sum_by-insert itself link.target (or_zero (get link.target s.readd_holds) + 1) s.readd_holds
            h.holds_sorted,
        insert-IsSorted link.target (or_zero (get link.target s.readd_holds) + 1) s.readd_holds
            h.holds_sorted,
        insert-IsSorted zset link' s.links h.links_sorted,
        AllValues-insert HasSortedHeld zset link' s.links
            (record { sorted = remove-IsSorted member link.held held_sorted }) h.held_sorted,
      )

  -- With a coordinator installed, taking a member out of a linked set, which moves its held count
  -- to the target or releases it, keeps the balance of the counts.
  pub link_removed-IsCounted :
      (zset member : Bytes) (handed : ℕ) (s : State)
      → IsCounted handed s
      → IsCounted handed (link_removed server zset member s)
  unfolding link_removed
  link_removed-IsCounted zset member handed s h =
      unlinked-IsCounted zset member (get zset s.links) handed s refl h

  dropped-IsCounted :
      (zset : Bytes) (o : Option Link) (handed : ℕ) (s : State)
      → get zset s.links ≡ o
      → IsCounted handed s
      → IsCounted handed (dropped server zset o s)
  unfolding released
  dropped-IsCounted zset none handed s e h = h
  dropped-IsCounted zset (some link) handed s e h =
      let link' : Link = record link { due = []; held = [] } in
      ground (
        arith,
        installed,
        e,
        sum_by-insert held_by zset link' s.links h.links_sorted,
        insert-IsSorted zset link' s.links h.links_sorted,
        AllValues-insert HasSortedHeld zset link' s.links (record { sorted = tt }) h.held_sorted,
      )

  pub link_dropped-IsCounted :
      (zset : Bytes) (handed : ℕ) (s : State)
      → IsCounted handed s
      → IsCounted handed (link_dropped server zset s)
  unfolding link_dropped
  link_dropped-IsCounted zset handed s h = dropped-IsCounted zset (get zset s.links) handed s refl h

  pruned-IsCounted :
      (zset : Bytes) (o : Option Link) (handed : ℕ) (s : State)
      → get zset s.links ≡ o
      → IsCounted handed s
      → IsCounted handed (pruned server zset o s)
  unfolding released
  pruned-IsCounted zset none handed s e h = h
  pruned-IsCounted zset (some link) handed s e h =
      let kept = λ (member : Bytes). is_some (zscore zset member server.now s.keys) in
      let held_sorted = (AllValues-get HasSortedHeld zset s.links h.held_sorted e).sorted in
      let link' : Link = record link {
        due = keep_members kept link.due;
        held = keep_members kept link.held;
      } in
      ground (
        arith,
        installed,
        e,
        sum_by-insert held_by zset link' s.links h.links_sorted,
        length-keep_members kept link.held,
        insert-IsSorted zset link' s.links h.links_sorted,
        AllValues-insert HasSortedHeld zset link' s.links
            (record { sorted = keep_members-IsSorted kept link.held held_sorted }) h.held_sorted,
      )

  -- With a coordinator installed, pruning a linked set, which releases the counts of held members
  -- that are no longer in it, keeps the balance of the counts.
  pub prune_link-IsCounted :
      (zset : Bytes) (handed : ℕ) (s : State)
      → IsCounted handed s
      → IsCounted handed (prune_link server zset s)
  unfolding prune_link
  prune_link-IsCounted zset handed s h = pruned-IsCounted zset (get zset s.links) handed s refl h
