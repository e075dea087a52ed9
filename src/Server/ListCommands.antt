-- ===== src/Server/ListCommands.antt =====
-- in_process/lists.rs: the commands that push and pop.
use ruststream_fred.Common.{
  ℕ, zero, suc, Bool, true, false, List, [], ◌∷◌, Option, none, some, map, ltb, length, is_nil,
  if◌then◌else◌,
}
use ruststream_fred.Common.Order.{bytes_ord, ◌==◌}
use ruststream_fred.Server.Text.{Bytes, b}
use ruststream_fred.Server.Value.{Value, array, null, of_list, syntax, not_integer, panic}
use ruststream_fred.Server.State.{Server}
use ruststream_fred.Server.Exec.{Exec, ◌>>=◌, ◌>>◌, pure, refuse, lift, reads, change, required}
use ruststream_fred.Server.Args.{
  left, refuse_arity, done, word, next_bytes, next_int, next_float, rest, int, bulk, to_usize,
}
use ruststream_fred.Server.Keyspace.{lists, read, write, store, drop_empty}
use ruststream_fred.Server.Counts.{list_changed}
use ruststream_fred.Server.Lists.{
  End, left_end, right_end, pop, push, push_all, pop_many, init, log_all,
}

module _ (server : Server) where
  -- `End::parse`
  unfoldable pub parse_end : Exec End
  parse_end = do
    to_left ← word server "LEFT"
    to_right ← if to_left then pure false else word server "RIGHT"
    if to_left then pure left_end else if to_right then pure right_end else refuse syntax

  -- The write of `LPUSH` and `RPUSH`.
  unfoldable pub push_values : End → Bytes → List Bytes → Exec Value
  push_values end key values = do
    held ← write lists key server.now true
    xs ← required held panic
    change (λ s. record s { keys = store lists key (push_all end values xs) s.keys })
    change (log_all key values)
    change (list_changed server key (length values) 0)
    pure (int (length (push_all end values xs)))

  -- `LPUSH`, `RPUSH`
  unfoldable pub push_command : End → Exec Value
  push_command end = do
    key ← next_bytes server
    values ← rest server
    if is_nil values then refuse_arity else push_values end key values

  abbrev popped_reply : Option ℕ → List Bytes → Value
  popped_reply none [] = null
  popped_reply none (x ∷ xs) = bulk x
  popped_reply (some n) [] = null
  popped_reply (some n) (x ∷ xs) = array (of_list (map bulk (x ∷ xs)))

  abbrev count_or_one : Option ℕ → ℕ
  count_or_one none = 1
  count_or_one (some n) = n

  unfoldable pub popped_from : End → Option ℕ → Bytes → Option (List Bytes) → Exec Value
  popped_from end count key none = pure null
  popped_from end count key (some xs) = do
    let popped = pop_many end (count_or_one count) xs
    change (λ s. record s { keys = drop_empty key (store lists key popped.1 s.keys) })
    change (list_changed server key 0 (length popped.0))
    pure (popped_reply count popped.0)

  -- The write of `LPOP` and `RPOP`.
  unfoldable pub pop_values : End → Option ℕ → Bytes → Exec Value
  unfolding popped_from
  pop_values end count key = do
    held ← write lists key server.now false
    popped_from end count key held

  unfoldable pub parse_count : ℕ → Exec (Option ℕ)
  parse_count zero = pure none
  parse_count (suc n) = do
    count ← next_int server
    n ← required (to_usize count) not_integer
    pure (some n)

  -- `LPOP`, `RPOP`
  unfoldable pub pop_command : End → Exec Value
  unfolding parse_count
  pop_command end = do
    key ← next_bytes server
    n ← left
    count ← parse_count n
    pop_values end count key

  -- The reply of a blocking pop that found a value.
  abbrev pub took_one : Bytes → Option (Bytes × List Bytes) → Exec Value → Exec Value
  took_one key none next_key = next_key
  took_one key (some (y, ys)) next_key = do
    change (λ s. record s { keys = drop_empty key (store lists key ys s.keys) })
    change (list_changed server key 0 1)
    pure (array (of_list (bulk key ∷ bulk y ∷ [])))

  unfoldable pub popped_one : End → Bytes → Option (List Bytes) → Exec Value → Exec Value
  popped_one end key none next_key = next_key
  popped_one end key (some xs) next_key = took_one key (pop end xs) next_key

  -- The loop of `BRPOP` and `BLPOP` over their keys.
  unfoldable pub pop_first : End → List Bytes → Exec Value
  unfolding popped_one
  pop_first end [] = pure null
  pop_first end (key ∷ keys) = do
    held ← write lists key server.now false
    popped_one end key held (pop_first end keys)

  -- `BRPOP`, `BLPOP`
  unfoldable pub blocking_pop_command : End → Exec Value
  blocking_pop_command end = do
    keys ← rest server
    if ltb (length keys) 2 then refuse_arity else pop_first end (init keys)

  unfoldable pub moved_to : End → Bytes → Bytes → Bytes → List Bytes → Exec Value
  moved_to to source destination value xs = do
    change (λ s. record s { keys = drop_empty source (store lists source xs s.keys) })
    held ← write lists destination server.now true
    target ← required held panic
    change (λ s. record s { keys = store lists destination (push to value target) s.keys })
    change (list_changed server source 0 1)
    change (list_changed server destination 1 0)
    pure (bulk value)

  abbrev pub moved_value : End → Bytes → Bytes → Option (Bytes × List Bytes) → Exec Value
  moved_value to source destination none = pure null
  moved_value to source destination (some (y, ys)) = moved_to to source destination y ys

  unfoldable pub moved_from : End → End → Bytes → Bytes → Option (List Bytes) → Exec Value
  moved_from from to source destination none = pure null
  moved_from from to source destination (some xs) = moved_value to source destination (pop from xs)

  -- `State::lmove`
  unfoldable pub lmove : Bytes → Bytes → End → End → Exec Value
  unfolding moved_from
  lmove source destination from to = do
    checked ← reads (λ s. read lists destination server.now s.keys)
    lift checked
    held ← write lists source server.now false
    moved_from from to source destination held

  unfoldable pub parse_ends : Bool → Exec (End × End)
  parse_ends true = do from ← parse_end; to ← parse_end; pure (from, to)
  parse_ends false = pure (right_end, left_end)

  unfoldable pub skip_timeout : Bool → Exec (Unit {0})
  skip_timeout true = do next_float server; pure tt
  skip_timeout false = pure tt

  -- `LMOVE`, `BLMOVE`, `RPOPLPUSH`, `BRPOPLPUSH`: whether the ends are named, and a timeout given.
  unfoldable pub move_command : Bool → Bool → Exec Value
  unfolding parse_ends skip_timeout
  move_command names_ends blocks = do
    source ← next_bytes server
    destination ← next_bytes server
    ends ← parse_ends names_ends
    skip_timeout blocks
    done
    lmove source destination ends.0 ends.1

  -- `State::lists`
  unfoldable pub list_commands : Bytes → Exec (Option Value)
  list_commands name =
      let answer = λ (m : Exec Value). m >>= λ reply. pure (some reply) in
      if name == b "LPUSH"
      then answer (push_command left_end)
      else if name == b "RPUSH"
      then answer (push_command right_end)
      else if name == b "LPOP"
      then answer (pop_command left_end)
      else if name == b "RPOP"
      then answer (pop_command right_end)
      else if name == b "BLPOP"
      then answer (blocking_pop_command left_end)
      else if name == b "BRPOP"
      then answer (blocking_pop_command right_end)
      else if name == b "LMOVE"
      then answer (move_command true false)
      else if name == b "BLMOVE"
      then answer (move_command true true)
      else if name == b "RPOPLPUSH"
      then answer (move_command false false)
      else if name == b "BRPOPLPUSH"
      then answer (move_command false true)
      else pure none
