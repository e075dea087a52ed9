-- ===== src/Server/Conservation/World.antt =====
-- The counts over every run of the server: what is counted in flight covers what is owed.
use ruststream_fred.Common.{
  ℕ, ◌+◌, ◌≤◌, ◌≡◌, refl, Bool, true, false, List, Option, none, some, arith, if◌then◌else◌,
}
use ruststream_fred.Common.Order.{nat_ord, bytes_ord}
use ruststream_fred.Common.Map.{get}
use ruststream_fred.Server.Text.{Bytes}
use ruststream_fred.Server.Value.{Value}
use ruststream_fred.Server.State.{
  State, Server, Reader, StreamReader, Duration, stream_reader, list_reader, channel_reader, delay,
  recovery,
}
use ruststream_fred.Server.Exec.{Result}
use ruststream_fred.Server.Slots.{Command}
use ruststream_fred.Server.World.{
  World, fresh_world, apply, apply_all, close, attach_stream, attach_list, attach_pubsub, detach,
  fire, inject, inject_stream, inject_list, inject_publish, released_by, with_delay, with_recovery,
  claims_armed,
}
use ruststream_fred.Server.Reach.{
  Call, after, applies, transacts, closes, attaches_stream, attaches_list, attaches_pubsub,
  detaches, fires, injects_stream, injects_list, injects_publish, Step, calls, hangs_up, hung_up,
  Reach, here, next,
}
use ruststream_fred.Server.Counts.Balance.{
  IsCounted, outstanding, recount_group-IsCounted, recount_list-IsCounted,
}
use ruststream_fred.Server.Conservation.Covered.{IsCovered, readers-IsCounted}
use ruststream_fred.Server.Conservation.Dispatch.{run-IsCovered, transaction-IsCovered}
use ruststream_fred.Server.Conservation.Timers.{
  linked-IsCounted, arm_claims-IsCounted, fire-IsCounted,
}

if-IsCovered :
    (n : ℕ) (closed : Bool) (u v : Result Value × World)
    → IsCovered n u.1.state
    → IsCovered n v.1.state
    → IsCovered n (if closed then u else v).1.state
if-IsCovered n true u v hu hv = hu
if-IsCovered n false u v hu hv = hv

module _ (server : Server) (installed : server.has_coordinator ≡ true) (n : ℕ) where
  apply-IsCovered :
      (c : Command) (w : World) → IsCovered n w.state → IsCovered n (apply server c w).1.state
  unfolding apply
  apply-IsCovered c w h =
      if-IsCovered n w.is_closed _ _ h (run-IsCovered server installed n c w.state h)

  apply_all-IsCovered :
      (cs : List Command) (w : World)
      → IsCovered n w.state
      → IsCovered n (apply_all server cs w).1.state
  unfolding apply_all
  apply_all-IsCovered cs w h =
      if-IsCovered n w.is_closed _ _ h (transaction-IsCovered server installed n cs w.state h)

module _ (server : Server) (installed : server.has_coordinator ≡ true) (handed : ℕ) where
  with_delay-IsCounted :
      (o : Option Bytes) (key : Bytes) (s : State)
      → IsCounted handed s
      → IsCounted handed (with_delay server o key s)
  with_delay-IsCounted none key s h = h
  with_delay-IsCounted (some zset) key s h =
      linked-IsCounted handed (get zset s.links) zset key delay s refl h

  with_recovery-IsCounted :
      (o : Option (Bytes × Duration)) (key : Bytes) (s : State)
      → IsCounted handed s
      → IsCounted handed (with_recovery server o key s)
  with_recovery-IsCounted none key s h = h
  with_recovery-IsCounted (some (zset, min_idle)) key s h =
      linked-IsCounted handed (get zset s.links) zset key (recovery min_idle) s refl h

  claims_armed-IsCounted :
      (r : StreamReader) (o : Option Duration) (s : State)
      → IsCounted handed s
      → IsCounted handed (claims_armed server r o s)
  claims_armed-IsCounted r none s h = h
  claims_armed-IsCounted r (some min_idle) s h =
      arm_claims-IsCounted server installed handed r.key r.group min_idle s h

  -- With a coordinator installed, registering a stream subscription, which links its delay queue,
  -- arms its claims and owes what its group has not read, keeps the balance of the counts.
  attach_stream-IsCounted :
      (r : StreamReader) (w : World)
      → IsCounted handed w.state
      → IsCounted handed (attach_stream server r w).state
  unfolding attach_stream
  attach_stream-IsCounted r w h = recount_group-IsCounted server installed r.key r.group handed _ (
      claims_armed-IsCounted r r.claim _
        (readers-IsCounted handed _ _ (with_delay-IsCounted r.delay r.key w.state h)))

  attach_list-IsCounted :
      (key : Bytes) (set : Option (Bytes × Duration)) (w : World)
      → IsCounted handed w.state
      → IsCounted handed (attach_list server key set w).state
  unfolding attach_list
  attach_list-IsCounted key set w h =
      recount_list-IsCounted server installed key handed _
        (readers-IsCounted handed _ _ (with_recovery-IsCounted set key w.state h))

  released_by-IsCounted :
      (o : Option Reader) (s : State)
      → IsCounted handed s
      → IsCounted handed (released_by server o s)
  released_by-IsCounted none s h = h
  released_by-IsCounted (some (stream_reader r)) s h =
      recount_group-IsCounted server installed r.key r.group handed s h
  released_by-IsCounted (some (list_reader key set)) s h =
      recount_list-IsCounted server installed key handed s h
  released_by-IsCounted (some (channel_reader target tx)) s h = h

  -- With a coordinator installed, removing any subscription, which releases what was owed to it
  -- alone, keeps the balance of the counts.
  pub detach-IsCounted :
      (id : ℕ) (w : World) → IsCounted handed w.state → IsCounted handed (detach server id w).state
  unfolding detach
  detach-IsCounted id w h =
      released_by-IsCounted (get id w.state.readers) _ (readers-IsCounted handed w.state _ h)

lifted :
    (n : ℕ) (w v : World)
    → ((handed : ℕ) → IsCounted handed w.state → IsCounted handed v.state)
    → IsCovered n w.state
    → IsCovered n v.state
lifted n w v kept h = record {
  handed = h.handed;
  at_least = h.at_least;
  counted = kept h.handed h.counted;
}

after-IsCovered :
    (server : Server) (n : ℕ) (c : Call) (w : World)
    → server.has_coordinator ≡ true
    → IsCovered n w.state
    → IsCovered n (after server c w).state
unfolding after close attach_pubsub inject_stream inject_list inject_publish inject
after-IsCovered server n (applies c) w i h = apply-IsCovered server i n c w h
after-IsCovered server n (transacts cs) w i h = apply_all-IsCovered server i n cs w h
after-IsCovered server n closes w i h = h
after-IsCovered server n (attaches_stream r) w i h =
    lifted n w (attach_stream server r w)
      (λ handed k. attach_stream-IsCounted server i handed r w k) h
after-IsCovered server n (attaches_list key set) w i h =
    lifted n w (attach_list server key set w)
      (λ handed k. attach_list-IsCounted server i handed key set w k) h
after-IsCovered server n (attaches_pubsub target) w i h =
    lifted n w (attach_pubsub server target w) (λ handed k. readers-IsCounted handed w.state _ k) h
after-IsCovered server n (detaches id) w i h =
    lifted n w (detach server id w) (λ handed k. detach-IsCounted server i handed id w k) h
after-IsCovered server n (fires f) w i h =
    lifted n w (record w { state = fire server f w.state })
      (λ handed k. fire-IsCounted server i handed f w.state k) h
after-IsCovered server n (injects_stream name fs) w i h = apply-IsCovered server i n _ w h
after-IsCovered server n (injects_list name message) w i h = apply-IsCovered server i n _ w h
after-IsCovered server n (injects_publish name message shard) w i h =
    apply-IsCovered server i n _ w h

Step-IsCovered : (n : ℕ) {w v : World} → Step w v → IsCovered n w.state → IsCovered n v.state
Step-IsCovered n {w} (calls server c i) h = after-IsCovered server n c w i h
Step-IsCovered n {w} (hangs_up id) h =
    lifted n w (record w { state = record w.state { readers = hung_up id w.state.readers } })
      (λ handed k. readers-IsCounted handed w.state _ k) h

-- Every run of the server keeps the bound: if what was counted in flight less what the server
-- released is what the server owes and a number handed out that is `n` at least, and the maps that
-- record it are in the order of their keys; then so it is in each world reached by calls made with
-- a coordinator installed.
pub Reach-IsCovered : (n : ℕ) {w v : World} → Reach w v → IsCovered n w.state → IsCovered n v.state
Reach-IsCovered n here h = h
Reach-IsCovered n (next r st) h = Step-IsCovered n st (Reach-IsCovered n r h)

fresh_world-IsCovered : IsCovered 0 fresh_world.state
fresh_world-IsCovered = record {
  handed = 0;
  at_least = omega arith;
  counted = record {
    owed_sorted = tt;
    sets_sorted = tt;
    lists_sorted = tt;
    holds_sorted = tt;
    links_sorted = tt;
    held_sorted = tt;
    balance = refl;
  };
}

-- In every world reached from a fresh server by any calls of clients, harness and timers, in any
-- order and at any times, a coordinator installed at each, and by any receivers that hang up, the
-- deliveries that the server released by itself and those it still owes are together no more than
-- those it counted in flight.
pub outstanding-le-enqueued :
    {w : World} → Reach fresh_world w → w.state.consumed + outstanding w.state ≤ w.state.enqueued
outstanding-le-enqueued r =
    let c = Reach-IsCovered 0 r fresh_world-IsCovered in omega (arith, c.counted.balance)
