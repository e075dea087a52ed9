-- ===== src/Server/Tests/Counted.antt =====
-- The balance of the counts at a concrete state, and commands that keep it.
use ruststream_fred.Common.{false, refl, [], ◌∷◌}
use ruststream_fred.Server.Text.{b}
use ruststream_fred.Server.Exec.{Context}
use ruststream_fred.Server.Counts.{registered, any_stream}
use ruststream_fred.Server.Groups.{handed_out}
use ruststream_fred.Server.StreamCommands.{xadd}
use ruststream_fred.Server.Counts.Balance.{IsCounted}
use ruststream_fred.Server.Conservation.Groups.{handed_out-IsCounted}
use ruststream_fred.Server.Conservation.Commands.{xadd-IsCounted}
use ruststream_fred.Server.Tests.{test_server, test_state, test_state-IsCounted, with_args}

abbrev xadd_args : Context
xadd_args = with_args (b "orders" ∷ b "MAXLEN" ∷ b "2" ∷ b "*" ∷ b "body" ∷ b "d" ∷ [])

xadd-IsCounted_example : IsCounted 1 (xadd test_server xadd_args).1.state
xadd-IsCounted_example = xadd-IsCounted test_server refl 1 xadd_args test_state-IsCounted

abbrev xack_args : Context
xack_args = with_args (b "orders" ∷ b "workers" ∷ b "5-0" ∷ [])

abbrev xgroup_args : Context
xgroup_args = with_args (b "orders" ∷ b "workers" ∷ b "0" ∷ [])

handed_out-IsCounted_example : IsCounted 3 (
    handed_out test_server
      (b "orders")
      (b "workers")
      (b "alice")
      ((6, 0) ∷ (7, 1) ∷ [])
      false
      test_state)
unfolding registered any_stream
handed_out-IsCounted_example =
    handed_out-IsCounted test_server refl 1 (b "orders") (b "workers") (b "alice")
      ((6, 0) ∷ (7, 1) ∷ []) false test_state test_state-IsCounted
