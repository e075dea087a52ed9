-- ===== src/Server/Tests/Worlds.antt =====
-- A run of the server from its start, and the state of the other tests in a world of its own.
use ruststream_fred.Common.{◌+◌, ◌≤◌, true, false, refl, [], ◌∷◌, none, some, arith}
use ruststream_fred.Server.Text.{b}
use ruststream_fred.Server.Value.{string}
use ruststream_fred.Server.State.{StreamReader}
use ruststream_fred.Server.Slots.{Command}
use ruststream_fred.Server.Dispatch.{run, transaction}
use ruststream_fred.Server.World.{World, fresh_world}
use ruststream_fred.Server.Reach.{
  Reach, here, next, calls, applies, attaches_stream, injects_stream, after,
}
use ruststream_fred.Server.Counts.Balance.{outstanding}
use ruststream_fred.Server.Conservation.Covered.{IsCovered}
use ruststream_fred.Server.Conservation.Dispatch.{run-IsCovered, transaction-IsCovered}
use ruststream_fred.Server.Conservation.World.{Reach-IsCovered, outstanding-le-enqueued}
use ruststream_fred.Server.Tests.{test_server, test_state, test_state-IsCounted}

abbrev group_created : Command
group_created = record {
  cmd = b "XGROUP";
  subcommand = some (b "CREATE");
  arguments =
      string (b "orders") ∷ string (b "workers") ∷ string (b "0") ∷ string (b "MKSTREAM") ∷ [];
}

abbrev worker : StreamReader
worker = record {
  key = b "orders";
  group = b "workers";
  consumer = b "w";
  fresh = true;
  claim = none;
  delay = none;
}

-- A group is created, a consumer attaches to it, and the harness adds an entry.
abbrev first_run : World
first_run = after test_server (injects_stream (b "orders") ((b "body", b "a") ∷ [])) (
    after test_server (attaches_stream worker)
      (after test_server (applies group_created) fresh_world))

first_run-Reach : Reach fresh_world first_run
first_run-Reach =
    next
      (next (next here (calls test_server (applies group_created) refl))
        (calls test_server (attaches_stream worker) refl))
      (calls test_server (injects_stream (b "orders") ((b "body", b "a") ∷ [])) refl)

outstanding-le-enqueued_example :
    first_run.state.consumed + outstanding first_run.state ≤ first_run.state.enqueued
outstanding-le-enqueued_example = outstanding-le-enqueued first_run-Reach

abbrev test_world : World
test_world = record { is_closed = false; next_reader = 2; state = test_state }

test_state-IsCovered : IsCovered 1 test_state
test_state-IsCovered = record { handed = 1; at_least = omega arith; counted = test_state-IsCounted }

Reach-IsCovered_example : IsCovered 1 (after test_server (attaches_stream worker) test_world).state
Reach-IsCovered_example =
    Reach-IsCovered 1 (next here (calls test_server (attaches_stream worker) refl))
      test_state-IsCovered

run-IsCovered_example : IsCovered 1 (run test_server group_created test_state).1
run-IsCovered_example =
    run-IsCovered test_server refl 1 group_created test_state test_state-IsCovered

abbrev popped : Command
popped = record { cmd = b "rpop"; subcommand = none; arguments = string (b "jobs") ∷ [] }

transaction-IsCovered_example :
    IsCovered 1 (transaction test_server (popped ∷ group_created ∷ []) test_state).1
transaction-IsCovered_example =
    transaction-IsCovered test_server refl 1 (popped ∷ group_created ∷ []) test_state
      test_state-IsCovered
