-- ===== src/Server/Conservation/Pops.antt =====
-- What was handed out stays counted through the list commands, the pops among them.
use ruststream_fred.Server.Counts.{list_changed}
use ruststream_fred.Common.{ℕ, zero, suc, ◌≡◌, Bool, true, false, List, [], ◌∷◌, Option, none, some}
use ruststream_fred.Server.Text.{Bytes}
use ruststream_fred.Server.Value.{Value}
use ruststream_fred.Server.State.{Server}
use ruststream_fred.Server.Exec.{Exec, change}
use ruststream_fred.Server.Exec.Keeps.{Keeps, bind-Keeps}
use ruststream_fred.Server.Args.Laws.{args_rules}
use ruststream_fred.Server.Lists.{End, pop}
use ruststream_fred.Server.ListCommands.{
  parse_end, push_command, popped_from, pop_values, parse_count, pop_command, took_one, popped_one,
  pop_first, blocking_pop_command, moved_to, moved_value, moved_from, lmove, parse_ends,
  skip_timeout, move_command, list_commands,
}
use ruststream_fred.Server.ListReads.{llen, lrange, lindex, lrem, ltrim, list_read_commands}
use ruststream_fred.Server.Conservation.Covered.{
  IsCovered, counted-Keeps, covered_rules, list_changed-Covers,
}
use ruststream_fred.Server.Conservation.Lists.{push_command-Keeps, lrem-Keeps, ltrim-Keeps}

module _ (server : Server) (installed : server.has_coordinator ≡ true) (n : ℕ) where
  changed-Covers :
      (key : Bytes) (pushed popped : ℕ)
      → Keeps (IsCovered n) (change (list_changed server key pushed popped))
  changed-Covers = list_changed-Covers server installed n

  popped_from-Covers :
      (end : End) (count : Option ℕ) (key : Bytes) (o : Option (List Bytes))
      → Keeps (IsCovered n) (popped_from server end count key o)
  unfolding popped_from
  popped_from-Covers end count key none = search covered_rules
  popped_from-Covers end count key (some xs) = search (covered_rules, changed-Covers) depth 9

  pop_values-Covers :
      (end : End) (count : Option ℕ) (key : Bytes)
      → Keeps (IsCovered n) (pop_values server end count key)
  unfolding pop_values
  pop_values-Covers end count key = search (covered_rules, popped_from-Covers) depth 9

  parse_count-Covers : (left_over : ℕ) → Keeps (IsCovered n) (parse_count server left_over)
  unfolding parse_count
  parse_count-Covers zero = search args_rules
  parse_count-Covers (suc m) = search args_rules

  pop_command-Covers : (end : End) → Keeps (IsCovered n) (pop_command server end)
  unfolding pop_command
  pop_command-Covers end = search (args_rules, parse_count-Covers, pop_values-Covers) depth 9

  took_one-Covers :
      (key : Bytes) (o : Option (Bytes × List Bytes)) (otherwise : Exec Value)
      → Keeps (IsCovered n) otherwise
      → Keeps (IsCovered n) (took_one server key o otherwise)
  took_one-Covers key none otherwise k = k
  took_one-Covers key (some (y, ys)) otherwise k = search (covered_rules, changed-Covers) depth 9

  popped_one-Covers :
      (end : End) (key : Bytes) (o : Option (List Bytes)) (otherwise : Exec Value)
      → Keeps (IsCovered n) otherwise
      → Keeps (IsCovered n) (popped_one server end key o otherwise)
  unfolding popped_one
  popped_one-Covers end key none otherwise k = k
  popped_one-Covers end key (some xs) otherwise k = took_one-Covers key (pop end xs) otherwise k

  pop_first-Covers :
      (end : End) (keys : List Bytes) → Keeps (IsCovered n) (pop_first server end keys)
  unfolding pop_first
  pop_first-Covers end [] = search covered_rules
  pop_first-Covers end (key ∷ keys) =
      bind-Keeps _ _ (search covered_rules)
        λ held. popped_one-Covers end key held _ (pop_first-Covers end keys)

  blocking_pop_command-Covers : (end : End) → Keeps (IsCovered n) (blocking_pop_command server end)
  unfolding blocking_pop_command
  blocking_pop_command-Covers end = search (args_rules, pop_first-Covers) depth 9

  moved_to-Covers :
      (to : End) (source destination value : Bytes) (xs : List Bytes)
      → Keeps (IsCovered n) (moved_to server to source destination value xs)
  unfolding moved_to
  moved_to-Covers to source destination value xs = search (covered_rules, changed-Covers) depth 14

  moved_value-Covers :
      (to : End) (source destination : Bytes) (o : Option (Bytes × List Bytes))
      → Keeps (IsCovered n) (moved_value server to source destination o)
  moved_value-Covers to source destination none = search covered_rules
  moved_value-Covers to source destination (some (y, ys)) =
      moved_to-Covers to source destination y ys

  moved_from-Covers :
      (from to : End) (source destination : Bytes) (o : Option (List Bytes))
      → Keeps (IsCovered n) (moved_from server from to source destination o)
  unfolding moved_from
  moved_from-Covers from to source destination none = search covered_rules
  moved_from-Covers from to source destination (some xs) =
      moved_value-Covers to source destination (pop from xs)

  lmove-Covers :
      (source destination : Bytes) (from to : End)
      → Keeps (IsCovered n) (lmove server source destination from to)
  unfolding lmove
  lmove-Covers source destination from to = search (covered_rules, moved_from-Covers) depth 9

  parse_end-Covers : Keeps (IsCovered n) (parse_end server)
  unfolding parse_end
  parse_end-Covers = search args_rules depth 9

  parse_ends-Covers : (named : Bool) → Keeps (IsCovered n) (parse_ends server named)
  unfolding parse_ends
  parse_ends-Covers true = search (args_rules, parse_end-Covers)
  parse_ends-Covers false = search args_rules

  skip_timeout-Covers : (blocks : Bool) → Keeps (IsCovered n) (skip_timeout server blocks)
  unfolding skip_timeout
  skip_timeout-Covers true = search args_rules
  skip_timeout-Covers false = search args_rules

  move_command-Covers :
      (named blocks : Bool) → Keeps (IsCovered n) (move_command server named blocks)
  unfolding move_command
  move_command-Covers named blocks =
      search (args_rules, parse_ends-Covers, skip_timeout-Covers, lmove-Covers) depth 12

  push_command-Covers : (end : End) → Keeps (IsCovered n) (push_command server end)
  push_command-Covers end =
      counted-Keeps n _ (λ handed. push_command-Keeps server installed handed end)

  pub list_commands-Covers : (name : Bytes) → Keeps (IsCovered n) (list_commands server name)
  unfolding list_commands
  list_commands-Covers name =
      search
        (
          args_rules, push_command-Covers, pop_command-Covers, blocking_pop_command-Covers,
          move_command-Covers,
        )
        depth 24

  llen-Covers : Keeps (IsCovered n) (llen server)
  unfolding llen
  llen-Covers = search args_rules depth 9

  lrange-Covers : Keeps (IsCovered n) (lrange server)
  unfolding lrange
  lrange-Covers = search args_rules depth 9

  lindex-Covers : Keeps (IsCovered n) (lindex server)
  unfolding lindex
  lindex-Covers = search args_rules depth 9

  lrem-Covers : Keeps (IsCovered n) (lrem server)
  lrem-Covers = counted-Keeps n _ (lrem-Keeps server installed)

  ltrim-Covers : Keeps (IsCovered n) (ltrim server)
  ltrim-Covers = counted-Keeps n _ (ltrim-Keeps server installed)

  pub list_read_commands-Covers :
      (name : Bytes) → Keeps (IsCovered n) (list_read_commands server name)
  unfolding list_read_commands
  list_read_commands-Covers name =
      search (args_rules, llen-Covers, lrange-Covers, lindex-Covers, lrem-Covers, ltrim-Covers)
        depth 14
