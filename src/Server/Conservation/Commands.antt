-- ===== src/Server/Conservation/Commands.antt =====
-- The balance of the counts over whole commands: streams.rs and lists.rs, as `run` calls them.
use ruststream_fred.Server.Text.{Bytes}
use ruststream_fred.Common.{ℕ, ◌≡◌, true}
use ruststream_fred.Server.State.{Server}
use ruststream_fred.Server.Exec.{Context}
use ruststream_fred.Server.Lists.{End}
use ruststream_fred.Server.ListCommands.{push_command}
use ruststream_fred.Server.ListReads.{lrem, ltrim}
use ruststream_fred.Server.StreamCommands.{xadd, xdel, xtrim}
use ruststream_fred.Server.GroupCommands.{xack, xgroup}
use ruststream_fred.Server.Counts.Balance.{IsCounted}
use ruststream_fred.Server.Conservation.Streams.{xadd-Keeps, xdel-Keeps, xtrim-Keeps}
use ruststream_fred.Server.Conservation.Groups.{xack-Keeps, xgroup-Keeps}
use ruststream_fred.Server.Conservation.Lists.{lrem-Keeps, ltrim-Keeps, push_command-Keeps}

module _ (server : Server) (installed : server.has_coordinator ≡ true) (handed : ℕ) where
  -- With a coordinator installed, `XADD` keeps the balance of the counts on every path, accepted or
  -- refused: where the deliveries counted in flight are those released, those the server owes and
  -- `handed` handed out, and the maps that record them are in the order of their keys, they are so
  -- afterwards, with the same `handed`.
  pub xadd-IsCounted :
      (c : Context) → IsCounted handed c.state → IsCounted handed (xadd server c).1.state
  xadd-IsCounted c h = (xadd-Keeps server installed handed).at c h

  -- With a coordinator installed, `XDEL` keeps the balance of the counts, answered or refused:
  -- where the deliveries counted in flight are those released, those the server owes and `handed`
  -- handed out, and the maps that record them are in the order of their keys, they are so
  -- afterwards, with the same `handed`.
  pub xdel-IsCounted :
      (c : Context) → IsCounted handed c.state → IsCounted handed (xdel server c).1.state
  xdel-IsCounted c h = (xdel-Keeps server installed handed).at c h

  -- With a coordinator installed, `XTRIM` keeps the balance of the counts, answered or refused:
  -- where the deliveries counted in flight are those released, those the server owes and `handed`
  -- handed out, and the maps that record them are in the order of their keys, they are so
  -- afterwards, with the same `handed`.
  pub xtrim-IsCounted :
      (c : Context) → IsCounted handed c.state → IsCounted handed (xtrim server c).1.state
  xtrim-IsCounted c h = (xtrim-Keeps server installed handed).at c h

  -- With a coordinator installed, `XACK` keeps the balance of the counts on every path: where the
  -- deliveries counted in flight are those released, those the server owes and `handed` handed out,
  -- and the maps that record them are in the order of their keys, they are so afterwards, with the
  -- same `handed`.
  pub xack-IsCounted :
      (c : Context) → IsCounted handed c.state → IsCounted handed (xack server c).1.state
  xack-IsCounted c h = (xack-Keeps server installed handed).at c h

  -- With a coordinator installed, each `XGROUP` subcommand keeps the balance of the counts,
  -- answered or refused: where the deliveries counted in flight are those released, those the
  -- server owes and `handed` handed out, and the maps that record them are in the order of their
  -- keys, they are so afterwards, with the same `handed`.
  pub xgroup-IsCounted :
      (subcommand : Bytes) (c : Context)
      → IsCounted handed c.state
      → IsCounted handed (xgroup server subcommand c).1.state
  xgroup-IsCounted subcommand c h = (xgroup-Keeps server installed handed subcommand).at c h

  -- With a coordinator installed, `LPUSH` and `RPUSH`, each, keep the balance of the counts,
  -- answered or refused: where the deliveries counted in flight are those released, those the
  -- server owes and `handed` handed out, and the maps that record them are in the order of their
  -- keys, they are so afterwards, with the same `handed`.
  pub push_command-IsCounted :
      (end : End) (c : Context)
      → IsCounted handed c.state
      → IsCounted handed (push_command server end c).1.state
  push_command-IsCounted end c h = (push_command-Keeps server installed handed end).at c h

  -- With a coordinator installed, `LREM` keeps the balance of the counts, answered or refused:
  -- where the deliveries counted in flight are those released, those the server owes and `handed`
  -- handed out, and the maps that record them are in the order of their keys, they are so
  -- afterwards, with the same `handed`.
  pub lrem-IsCounted :
      (c : Context) → IsCounted handed c.state → IsCounted handed (lrem server c).1.state
  lrem-IsCounted c h = (lrem-Keeps server installed handed).at c h

  -- With a coordinator installed, `LTRIM` keeps the balance of the counts, answered or refused:
  -- where the deliveries counted in flight are those released, those the server owes and `handed`
  -- handed out, and the maps that record them are in the order of their keys, they are so
  -- afterwards, with the same `handed`.
  pub ltrim-IsCounted :
      (c : Context) → IsCounted handed c.state → IsCounted handed (ltrim server c).1.state
  ltrim-IsCounted c h = (ltrim-Keeps server installed handed).at c h
