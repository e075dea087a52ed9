-- ===== src/Server/World.antt =====
-- in_process/mod.rs: the server as its clients and the test harness call it. Each call is made at
-- a time of its own, in the `Server` it is given.
use ruststream_fred.Common.{
  ℕ, ◌+◌, Bool, true, false, ◌&&◌, ◌||◌, not, List, [], ◌∷◌, Option, none, some, ltb, is_nil,
  is_some, if◌then◌else◌,
}
use ruststream_fred.Common.Order.{nat_ord, bytes_ord, pair_ord}
use ruststream_fred.Common.Map.{get, insert, remove}
use ruststream_fred.Server.Text.{Bytes, b}
use ruststream_fred.Server.Value.{Value, bytes, string, closed}
use ruststream_fred.Server.State.{
  State, Server, Duration, Link, LinkKind, delay, recovery, Reader, StreamReader, stream_reader,
  list_reader, channel_reader, Subscription, Write, Fire, Fields,
}
use ruststream_fred.Server.Exec.{Result, err}
use ruststream_fred.Server.Keyspace.{streams, lists, read, list_len}
use ruststream_fred.Server.Counts.{
  or_empty, recount_group, recount_list, leads, new_entries, or_nil,
}
use ruststream_fred.Server.Links.{link_due, prune_link}
use ruststream_fred.Server.Groups.{arm_claims, came_due}
use ruststream_fred.Server.Keys.{is_refused}
use ruststream_fred.Server.Slots.{Command}
use ruststream_fred.Server.Dispatch.{run, transaction}

-- What the server keeps between calls.
pub record World : Type 0 where
  pub is_closed : Bool
  pub next_reader : ℕ
  pub state : State

-- `connect`: nothing is stored, and nobody has registered.
abbrev pub fresh_world : World
fresh_world = record {
  is_closed = false;
  next_reader = 0;
  state = record {
    keys = [];
    readers = [];
    stream_owed = [];
    claim_due = [];
    list_owed = [];
    readd_holds = [];
    links = [];
    writes = [];
    enqueued = 0;
    consumed = 0;
    timers = [];
  };
}

-- `entry(zset).or_insert_with(Link::new)`
unfoldable pub linked : Option Link → Bytes → Bytes → LinkKind → State → State
linked (some link) zset target kind s = s
linked none zset target kind s = record s {
  links = insert zset (record { target = target; kind = kind; due = []; held = [] }) s.links;
}

abbrev has_due : Option Link → Bool
has_due none = false
has_due (some link) = not (is_nil link.due)

-- Whether the set that a subscription's sweeps read has due members.
abbrev link_is_due : Option Bytes → State → Bool
link_is_due none s = false
link_is_due (some zset) s = has_due (get zset s.links)

module _ (server : Server) where
  abbrev answered : Result Value × State → World → Result Value × World
  answered (reply, s) w = (reply, record w { state = s })

  -- `Server::apply`
  unfoldable pub apply : Command → World → Result Value × World
  apply c w = if w.is_closed then (err closed, w) else answered (run server c w.state) w

  -- `Server::transaction`
  unfoldable pub apply_all : List Command → World → Result Value × World
  apply_all cs w =
      if w.is_closed then (err closed, w) else answered (transaction server cs w.state) w

  -- `Server::close`
  unfoldable pub close : World → World
  close w = record w { is_closed = true }

  abbrev pub registered_as : Reader → World → World
  registered_as reader w = record w {
    next_reader = w.next_reader + 1;
    state = record w.state { readers = insert w.next_reader reader w.state.readers };
  }

  abbrev pub with_delay : Option Bytes → Bytes → State → State
  with_delay none key s = s
  with_delay (some zset) key s = linked (get zset s.links) zset key delay s

  abbrev pub with_recovery : Option (Bytes × Duration) → Bytes → State → State
  with_recovery none key s = s
  with_recovery (some (zset, min_idle)) key s =
      linked (get zset s.links) zset key (recovery min_idle) s

  abbrev pub claims_armed : StreamReader → Option Duration → State → State
  claims_armed r none s = s
  claims_armed r (some min_idle) s = arm_claims server r.key r.group min_idle s

  -- `Server::attach_stream`; the reader's id is the world's next one.
  unfoldable pub attach_stream : StreamReader → World → World
  attach_stream r w =
      let w' =
        registered_as (stream_reader r) (record w { state = with_delay r.delay r.key w.state }) in
      record w' { state = recount_group server r.key r.group (claims_armed r r.claim w'.state) }

  abbrev pub zset_of : Option (Bytes × Duration) → Option Bytes
  zset_of none = none
  zset_of (some (zset, min_idle)) = some zset

  -- `Server::attach_list`
  unfoldable pub attach_list : Bytes → Option (Bytes × Duration) → World → World
  attach_list key set w =
      let w' =
        registered_as (list_reader key (zset_of set))
          (record w { state = with_recovery set key w.state }) in
      record w' { state = recount_list server key w'.state }

  -- `Server::attach_pubsub`
  unfoldable pub attach_pubsub : Subscription → World → World
  attach_pubsub target w =
      registered_as (channel_reader target (record { is_open = true; sent = [] })) w

  abbrev pub released_by : Option Reader → State → State
  released_by (some (stream_reader r)) s = recount_group server r.key r.group s
  released_by (some (list_reader key set)) s = recount_list server key s
  released_by _ s = s

  -- `Server::detach`
  unfoldable pub detach : ℕ → World → World
  detach id w = record w {
    state =
        released_by (get id w.state.readers)
          (record w.state { readers = remove id w.state.readers });
  }

  -- What a scheduled timer does when it fires.
  unfoldable pub fire : Fire → State → State
  fire (Fire.prune_link zset) s = prune_link server zset s
  fire (Fire.claim_came_due key group id at) s = came_due server key group id at s
  fire (Fire.link_due zset member score) s = link_due server zset member score s

  -- `inject`, and what the harness injects
  unfoldable pub inject : Bytes → List Value → World → Result Value × World
  inject name values w = apply (record { cmd = name; subcommand = none; arguments = values }) w

  unfoldable pub field_values : Fields → List Value
  field_values [] = []
  field_values ((f, v) ∷ fs) = string f ∷ bytes v ∷ field_values fs

  unfoldable pub inject_stream : Bytes → Fields → World → Result Value × World
  inject_stream name fs w = inject (b "XADD") (string name ∷ string (b "*") ∷ field_values fs) w

  unfoldable pub inject_list : Bytes → Bytes → World → Result Value × World
  inject_list name message w = inject (b "LPUSH") (string name ∷ bytes message ∷ []) w

  unfoldable pub inject_publish : Bytes → Bytes → Bool → World → Result Value × World
  inject_publish name message shard w =
      inject (if shard then b "SPUBLISH" else b "PUBLISH") (string name ∷ bytes message ∷ []) w

  -- `Server::published`
  unfoldable pub published : Bytes → World → List Write
  published name w = or_nil (get name w.state.writes)

  abbrev pub reader_readable : ℕ → Option Reader → State → Bool
  reader_readable id (some (stream_reader r)) s =
      link_is_due r.delay s
      || (is_some r.claim && not (is_nil (or_empty (get (r.key, r.group) s.claim_due))))
      || is_refused (read streams r.key server.now s.keys)
      || (r.fresh
          && leads id r.key r.group s
          && not (is_nil (new_entries r.key r.group server.now s.keys)))
  reader_readable id (some (list_reader key set)) s =
      link_is_due set s
      || is_refused (read lists key server.now s.keys)
      || ltb 0 (list_len key server.now s.keys)
  reader_readable id _ s = false

  -- `State::readable`
  unfoldable pub readable : ℕ → State → Bool
  readable id s = reader_readable id (get id s.readers) s
