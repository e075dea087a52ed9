-- ===== src/Server/Conservation/Collections.antt =====
-- What was handed out stays counted through the commands on hashes, sets and sorted sets, and
-- through those of the server itself.
use ruststream_fred.Common.{
  ℕ, zero, suc, ◌+◌, ◌≡◌, Bool, true, List, [], ◌∷◌, Option, none, some, arith, eqb,
}
use ruststream_fred.Common.Order.{bytes_ord}
use ruststream_fred.Common.Map.{Map}
use ruststream_fred.Server.Text.{Bytes}
use ruststream_fred.Server.Value.{Value, Double}
use ruststream_fred.Server.State.{State, Server, Link, body, owe}
use ruststream_fred.Server.Exec.{change, pure}
use ruststream_fred.Server.Exec.Keeps.{Keeps, bind-Keeps, if-Keeps, pure-Keeps, change-Keeps}
use ruststream_fred.Server.Args.{next_float, next_bytes}
use ruststream_fred.Server.Args.Laws.{args_rules}
use ruststream_fred.Server.Keyspace.{Variant}
use ruststream_fred.Server.Counts.{publish}
use ruststream_fred.Server.Counts.Balance.{IsCounted}
use ruststream_fred.Server.Links.Balance.{link_removed-IsCounted}
use ruststream_fred.Server.Keys.{change_with}
use ruststream_fred.Server.Collections.{
  read_map, add_all, without, drop_all, hset, hget, hgetall, hdel, hexists, hlen, hincrby,
  hash_commands, sadd, srem, smembers, sismember, scard, set_commands,
}
use ruststream_fred.Server.ServerCommands.{ping, echo, subscribe, publish_command, server_commands}
use ruststream_fred.Server.SortedSets.{AddOptions, arm_link, arm_links, armed, remove_links}
use ruststream_fred.Server.SortedSetCommands.{
  next_is, parse_bound, add_options, scored_pairs, add_members, zadd, remove_members, zrem,
  zscore_command, zcard, range_options, zrangebyscore, zremrangebyscore, sorted_set_commands,
}
use ruststream_fred.Server.Conservation.{log-IsCounted}
use ruststream_fred.Server.Conservation.Deletes.{timers-IsCounted}
use ruststream_fred.Server.Conservation.Keys.{change_with-Keeps}
use ruststream_fred.Server.Conservation.Covered.{
  IsCovered, counted-IsCovered, covered_rules, readers-IsCounted,
}

next_is-Keeps : {P : State → Type 0} (p : List Value → Bool) → Keeps P (next_is p)
next_is-Keeps p = record { at = λ c h. h }

module _ (server : Server) (installed : server.has_coordinator ≡ true) (n : ℕ) where
  read_map-Covers :
      {V : Type 0} (v : Variant (Map Bytes V)) (key : Bytes)
      → Keeps (IsCovered n) (read_map server v key)
  unfolding read_map
  read_map-Covers v key = search covered_rules

  add_all-Covers :
      {V : Type 0} (v : Variant (Map Bytes V)) (key : Bytes) (entries : List (Bytes × V))
      → Keeps (IsCovered n) (add_all server v key entries)
  unfolding add_all
  add_all-Covers v key entries = search covered_rules depth 9

  without-Covers :
      {V : Type 0} (v : Variant (Map Bytes V)) (key : Bytes) (names : List Bytes)
      (o : Option (Map Bytes V))
      → Keeps (IsCovered n) (without server v key names o)
  without-Covers v key names none = search covered_rules
  without-Covers v key names (some m) = search covered_rules

  drop_all-Covers :
      {V : Type 0} (v : Variant (Map Bytes V)) (key : Bytes) (names : List Bytes)
      → Keeps (IsCovered n) (drop_all server v key names)
  unfolding drop_all
  drop_all-Covers v key names = search (covered_rules, without-Covers) depth 9

  ruleset map_rules = (covered_rules, args_rules, read_map-Covers, add_all-Covers, drop_all-Covers)

  pub hash_commands-Covers : (name : Bytes) → Keeps (IsCovered n) (hash_commands server name)
  unfolding hash_commands hset hget hgetall hdel hexists hlen hincrby
  hash_commands-Covers name = search map_rules depth 30

  pub set_commands-Covers : (name : Bytes) → Keeps (IsCovered n) (set_commands server name)
  unfolding set_commands sadd srem smembers sismember scard
  set_commands-Covers name = search map_rules depth 30

  armed-IsCovered :
      (zset member : Bytes) (score : Double) (o : Option Link) (s : State)
      → IsCovered n s
      → IsCovered n (armed server zset member score o s)
  armed-IsCovered zset member score none s h = h
  armed-IsCovered zset member score (some link) s h = record {
    handed = h.handed;
    at_least = h.at_least;
    counted = timers-IsCounted h.handed _ _ s h.counted;
  }

  arm_links-IsCovered :
      (zset : Bytes) (ms : List (Bytes × Double)) (s : State)
      → IsCovered n s
      → IsCovered n (arm_links server zset ms s)
  unfolding arm_links arm_link
  arm_links-IsCovered zset [] s h = h
  arm_links-IsCovered zset ((m, score) ∷ ms) s h =
      arm_links-IsCovered zset ms _ (armed-IsCovered zset m score _ s h)

  remove_links-IsCovered :
      (zset : Bytes) (ms : List Bytes) (s : State)
      → IsCovered n s
      → IsCovered n (remove_links server zset ms s)
  unfolding remove_links
  remove_links-IsCovered zset [] s h = h
  remove_links-IsCovered zset (m ∷ ms) s h =
      remove_links-IsCovered zset ms _
        (counted-IsCovered _ (link_removed-IsCounted server installed zset m) n s h)

  arm_links-Covers :
      (zset : Bytes) (ms : List (Bytes × Double))
      → Keeps (IsCovered n) (change (arm_links server zset ms))
  arm_links-Covers zset ms = change-Keeps _ (arm_links-IsCovered zset ms)

  remove_links-Covers :
      (zset : Bytes) (ms : List Bytes) → Keeps (IsCovered n) (change (remove_links server zset ms))
  remove_links-Covers zset ms = change-Keeps _ (remove_links-IsCovered zset ms)

  parse_bound-Covers : Keeps (IsCovered n) (parse_bound server)
  unfolding parse_bound
  parse_bound-Covers = search (args_rules, next_is-Keeps) depth 9

  add_options-Covers : (fuel : ℕ) (o : AddOptions) → Keeps (IsCovered n) (add_options server fuel o)
  unfolding add_options
  add_options-Covers zero o = search args_rules
  add_options-Covers (suc fuel) o = search (args_rules, add_options-Covers fuel) depth 24

  scored_pairs-Covers : (fuel : ℕ) → Keeps (IsCovered n) (scored_pairs server fuel)
  unfolding scored_pairs
  scored_pairs-Covers zero = search args_rules
  scored_pairs-Covers (suc fuel) = bind-Keeps _ _ (search args_rules) λ m.
      if-Keeps (eqb m 0) (pure []) _ (search args_rules) (
        bind-Keeps (next_float server) _ (search args_rules) λ score.
          bind-Keeps (next_bytes server) _ (search args_rules) λ member.
            bind-Keeps _ _ (scored_pairs-Covers fuel) λ more. pure-Keeps ((score, member) ∷ more))

  add_members-Covers :
      (key : Bytes) (o : AddOptions) (pairs : List (Double × Bytes))
      → Keeps (IsCovered n) (add_members server key o pairs)
  unfolding add_members
  add_members-Covers key o pairs = search (covered_rules, arm_links-Covers) depth 9

  zadd-Covers : Keeps (IsCovered n) (zadd server)
  unfolding zadd
  zadd-Covers =
      search (args_rules, add_options-Covers, scored_pairs-Covers, add_members-Covers) depth 14

  remove_members-Covers :
      (key : Bytes) (chosen : Map Bytes Double → List Bytes) (o : Option (Map Bytes Double))
      → Keeps (IsCovered n) (remove_members server key chosen o)
  unfolding remove_members
  remove_members-Covers key chosen none = search covered_rules
  remove_members-Covers key chosen (some set) = search (covered_rules, remove_links-Covers) depth 9

  range_options-Covers :
      (fuel : ℕ) (scores : Bool) (offset : ℕ) (count : Option ℕ)
      → Keeps (IsCovered n) (range_options server fuel scores offset count)
  unfolding range_options
  range_options-Covers zero scores offset count = search args_rules
  range_options-Covers (suc fuel) scores offset count =
      search (args_rules, range_options-Covers fuel) depth 14

  ruleset score_rules =
      (map_rules, parse_bound-Covers, zadd-Covers, remove_members-Covers, range_options-Covers)

  pub sorted_set_commands-Covers :
      (name : Bytes) → Keeps (IsCovered n) (sorted_set_commands server name)
  unfolding sorted_set_commands zrem zscore_command zcard zrangebyscore zremrangebyscore
  sorted_set_commands-Covers name = search score_rules depth 30

  -- Deliveries counted as they are handed out.
  owe-IsCounted :
      (handed more : ℕ) (s : State)
      → IsCounted handed s
      → IsCounted (handed + more) (owe server more s)
  unfolding owe
  owe-IsCounted handed more s h = ground (arith, installed, h)

  published-IsCovered :
      (channel message : Bytes) (shard : Bool) (s : State)
      → IsCovered n s
      → IsCovered n (publish server channel message shard s).1
  unfolding publish
  published-IsCovered channel message shard s h =
      let reached = (publish server channel message shard s).0 in
      let logged = log-IsCounted h.handed channel (body message) s h.counted in
      record {
        handed = h.handed + reached;
        at_least = omega (arith, h.at_least);
        counted = owe-IsCounted h.handed reached _ (readers-IsCounted h.handed _ _ logged);
      }

  published-Covers :
      (channel message : Bytes) (shard : Bool)
      → Keeps (IsCovered n) (change_with (publish server channel message shard))
  published-Covers channel message shard =
      change_with-Keeps _ (published-IsCovered channel message shard)

  publish_command-Covers : (shard : Bool) → Keeps (IsCovered n) (publish_command server shard)
  unfolding publish_command
  publish_command-Covers shard = search (args_rules, published-Covers) depth 9

  pub server_commands-Covers : (name : Bytes) → Keeps (IsCovered n) (server_commands server name)
  unfolding server_commands ping echo subscribe
  server_commands-Covers name = search (args_rules, publish_command-Covers) depth 24
