-- ===== src/Server/Conservation/Lists.antt =====
-- The balance under the list commands.
use ruststream_fred.Common.{
  ℕ, ◌≡◌, true, List, [], ◌∷◌, Option, none, some, ◌+◌, arith, if◌then◌else◌,
}
use mathlib.Core.Path.{subst}
use ruststream_fred.Server.Text.{Bytes}
use ruststream_fred.Server.State.{State, Server, body}
use ruststream_fred.Server.Exec.{change}
use ruststream_fred.Server.Exec.Keeps.{Keeps, change-Keeps}
use ruststream_fred.Server.Args.Laws.{args_rules}
use ruststream_fred.Server.Counts.{list_changed, list_read}
use ruststream_fred.Server.Counts.Balance.{
  IsCounted, recount_list-IsCounted, list_changed-IsCounted,
}
use ruststream_fred.Server.Conservation.{counted_rules, keys-IsCounted, log-IsCounted}
use ruststream_fred.Server.Lists.{End, log_all}
use ruststream_fred.Server.ListCommands.{push_values, push_command}
use ruststream_fred.Server.ListReads.{settle_list, lrem, ltrim}

module _ (server : Server) (installed : server.has_coordinator ≡ true) where
  settle_list-IsCounted :
      (handed : ℕ) (key : Bytes) (o : Option (List Bytes)) (s : State)
      → IsCounted handed s
      → IsCounted handed (settle_list server key o s)
  unfolding settle_list
  settle_list-IsCounted handed key none s h =
      recount_list-IsCounted server installed key handed _ (keys-IsCounted handed s _ h)
  settle_list-IsCounted handed key (some xs) s h =
      recount_list-IsCounted server installed key handed _ (keys-IsCounted handed s _ h)

  settle_list-Keeps :
      (handed : ℕ) (key : Bytes) (o : Option (List Bytes))
      → Keeps (IsCounted handed) (change (settle_list server key o))
  settle_list-Keeps handed key o = change-Keeps _ (settle_list-IsCounted handed key o)

  pub lrem-Keeps : (handed : ℕ) → Keeps (IsCounted handed) (lrem server)
  unfolding lrem
  lrem-Keeps handed = search (counted_rules, args_rules, settle_list-Keeps) depth 9

  pub ltrim-Keeps : (handed : ℕ) → Keeps (IsCounted handed) (ltrim server)
  unfolding ltrim
  ltrim-Keeps handed = search (counted_rules, args_rules, settle_list-Keeps) depth 9

  -- A push hands nothing out.
  pushed-IsCounted :
      (handed : ℕ) (key : Bytes) (n : ℕ) (s : State)
      → IsCounted handed s
      → IsCounted handed (list_changed server key n 0 s)
  pushed-IsCounted handed key n s h =
      let e : (if list_read key s then handed + 0 else handed) ≡ handed = ground arith in
      subst (λ t. IsCounted t (list_changed server key n 0 s)) e
        (list_changed-IsCounted server installed key n 0 handed s h)

  log_all-IsCounted :
      (handed : ℕ) (key : Bytes) (vs : List Bytes) (s : State)
      → IsCounted handed s
      → IsCounted handed (log_all key vs s)
  unfolding log_all
  log_all-IsCounted handed key [] s h = h
  log_all-IsCounted handed key (v ∷ vs) s h =
      log_all-IsCounted handed key vs _ (log-IsCounted handed key (body v) s h)

  log_all-Keeps :
      (handed : ℕ) (key : Bytes) (vs : List Bytes)
      → Keeps (IsCounted handed) (change (log_all key vs))
  log_all-Keeps handed key vs = change-Keeps _ (log_all-IsCounted handed key vs)

  pushed-Keeps :
      (handed : ℕ) (key : Bytes) (n : ℕ)
      → Keeps (IsCounted handed) (change (list_changed server key n 0))
  pushed-Keeps handed key n = change-Keeps _ (pushed-IsCounted handed key n)

  push_values-Keeps :
      (handed : ℕ) (end : End) (key : Bytes) (vs : List Bytes)
      → Keeps (IsCounted handed) (push_values server end key vs)
  unfolding push_values
  push_values-Keeps handed end key vs = search (counted_rules, log_all-Keeps, pushed-Keeps) depth 9

  pub push_command-Keeps :
      (handed : ℕ) (end : End) → Keeps (IsCounted handed) (push_command server end)
  unfolding push_command
  push_command-Keeps handed end = search (counted_rules, args_rules, push_values-Keeps) depth 9
