-- ===== src/Server/SortedSetCommands.antt =====
-- in_process/keyspace.rs: the commands on sorted sets.
use ruststream_fred.Common.{
  ℕ, zero, suc, ◌+◌, Bool, true, false, ◌&&◌, ◌||◌, List, [], ◌∷◌, Option, none, some, eqb, length,
  drop, is_nil, if◌then◌else◌,
}
use ruststream_fred.Common.Order.{◌==◌, bytes_ord}
use ruststream_fred.Common.Map.{Map, get, keys}
use ruststream_fred.Server.Text.{Bytes, b}
use ruststream_fred.Server.Value.{
  Value, Double, string, array, null, of_list, syntax, panic, zadd_incr, zadd_options,
}
use ruststream_fred.Server.State.{Server}
use ruststream_fred.Server.Exec.{Exec, ok, ◌>>=◌, ◌>>◌, pure, refuse, lift, change, required}
use ruststream_fred.Server.Args.{
  left, refuse_arity, done, word, next_bytes, next_text, next_int, next_float, rest, float_text,
  float_of, int, bulk, to_usize,
}
use ruststream_fred.Server.Keyspace.{zsets, write, store, drop_empty}
use ruststream_fred.Server.Streams.{bounded_by, usize_or_zero}
use ruststream_fred.Server.Collections.{read_map}
use ruststream_fred.Server.SortedSets.{
  Bound, opened, bound_of, is_number, scored_within, sort_scored, scored_reply, take_members,
  AddOptions, add_scored, arm_links, remove_links,
}

-- Where `Args::peek` finds an argument, and whether it is a number.
abbrev pub next_is : (List Value → Bool) → Exec Bool
next_is p c = (ok (p c.args.rest), c)

module _ (server : Server) where
  -- `Bound::parse`
  unfoldable pub parse_bound : Exec Bound
  parse_bound = do
    missing ← next_is is_nil
    if missing then refuse_arity else pure tt
    number ← next_is is_number
    if number
        then (do score ← next_float server; pure (record { score = score; exclusive = false }))
        else (do
          text ← next_text server
          lift (bound_of (opened text).0 (float_of server.doubles (string (opened text).1))))

  -- The loop over the options of `ZADD`: a round takes an argument.
  unfoldable pub add_options : ℕ → AddOptions → Exec AddOptions
  add_options zero o = pure o
  add_options (suc fuel) o = do
    only_new ← word server "NX"
    if only_new then add_options fuel (record o { only_new = true }) else (do
      only_old ← word server "XX"
      if only_old then add_options fuel (record o { only_old = true }) else (do
        changed ← word server "CH"
        if changed then add_options fuel (record o { changed = true }) else (do
          greater ← word server "GT"
          if greater then add_options fuel (record o { greater = true }) else (do
            less ← word server "LT"
            if less
                then add_options fuel (record o { less = true })
                else (do incr ← word server "INCR"; if incr then refuse zadd_incr else pure o)))))

  -- The pairs of `ZADD`: a round takes two arguments.
  unfoldable pub scored_pairs : ℕ → Exec (List (Double × Bytes))
  scored_pairs zero = pure []
  scored_pairs (suc fuel) = do
    n ← left
    if eqb n 0 then pure [] else (do
      score ← next_float server
      member ← next_bytes server
      more ← scored_pairs fuel
      pure ((score, member) ∷ more))

  -- The write of `ZADD`.
  unfoldable pub add_members : Bytes → AddOptions → List (Double × Bytes) → Exec Value
  add_members key o pairs = do
    held ← write zsets key server.now true
    set ← required held panic
    let r = add_scored server.doubles o pairs set
    change (λ s. record s { keys = drop_empty key (store zsets key r.set s.keys) })
    change (arm_links server key r.written)
    pure (int (if o.changed then r.added + r.updated else r.added))

  -- `State::zadd`
  unfoldable pub zadd : Exec Value
  zadd = do
    key ← next_bytes server
    n ← left
    o ← add_options (suc n) (record {
      only_new = false;
      only_old = false;
      changed = false;
      greater = false;
      less = false;
    })
    if (o.greater && o.less) || ((o.greater || o.less) && o.only_new)
        then refuse zadd_options
        else pure tt
    m ← left
    pairs ← scored_pairs m
    if is_nil pairs then refuse_arity else add_members key o pairs

  -- A removal: the members that the choice names leave the set, and each its link.
  unfoldable pub remove_members :
      Bytes → (Map Bytes Double → List Bytes) → Option (Map Bytes Double) → Exec Value
  remove_members key chosen none = do
    change (λ s. record s { keys = drop_empty key s.keys })
    pure (int 0)
  remove_members key chosen (some set) = do
    let r = take_members (chosen set) set
    change (λ s. record s { keys = drop_empty key (store zsets key r.1 s.keys) })
    change (remove_links server key r.0)
    pure (int (length r.0))

  unfoldable pub zrem : Exec Value
  zrem = do
    key ← next_bytes server
    members ← rest server
    held ← write zsets key server.now false
    remove_members key (λ set. members) held

  unfoldable pub zscore_command : Exec Value
  zscore_command = do
    key ← next_bytes server
    member ← next_bytes server
    set ← read_map server zsets key
    pure (elim (get member set) [
      | none ↦ null
      | some score ↦ bulk (float_text server.doubles score)
    ])

  unfoldable pub zcard : Exec Value
  zcard = do key ← next_bytes server; set ← read_map server zsets key; pure (int (length set))

  -- The options of `ZRANGEBYSCORE`, with the bounds of `LIMIT`.
  unfoldable pub range_options : ℕ → Bool → ℕ → Option ℕ → Exec (Bool × ℕ × Option ℕ)
  range_options zero scores offset count = pure (scores, offset, count)
  range_options (suc fuel) scores offset count = do
    n ← left
    if eqb n 0 then pure (scores, offset, count) else (do
      with_scores ← word server "WITHSCORES"
      if with_scores then range_options fuel true offset count else (do
        limit ← word server "LIMIT"
        if limit
            then (do
              from ← next_int server
              many ← next_int server
              range_options fuel scores (usize_or_zero (to_usize from)) (to_usize many))
            else refuse syntax))

  -- `State::zrangebyscore`
  unfoldable pub zrangebyscore : Exec Value
  zrangebyscore = do
    key ← next_bytes server
    min ← parse_bound
    max ← parse_bound
    n ← left
    o ← range_options n false 0 none
    set ← read_map server zsets key
    let members = sort_scored server.doubles (scored_within server.doubles min max set)
    pure (array (of_list (scored_reply server.doubles o.0 (bounded_by o.2 (drop o.1 members)))))

  unfoldable pub zremrangebyscore : Exec Value
  zremrangebyscore = do
    key ← next_bytes server
    min ← parse_bound
    max ← parse_bound
    done
    held ← write zsets key server.now false
    remove_members key (λ set. keys (scored_within server.doubles min max set)) held

  -- `sorted_sets`
  unfoldable pub sorted_set_commands : Bytes → Exec (Option Value)
  sorted_set_commands name =
      let answer = λ (m : Exec Value). m >>= λ reply. pure (some reply) in
      if name == b "ZADD"
      then answer zadd
      else if name == b "ZREM"
      then answer zrem
      else if name == b "ZSCORE"
      then answer zscore_command
      else if name == b "ZCARD"
      then answer zcard
      else if name == b "ZRANGEBYSCORE"
      then answer zrangebyscore
      else if name == b "ZREMRANGEBYSCORE"
      then answer zremrangebyscore
      else pure none
