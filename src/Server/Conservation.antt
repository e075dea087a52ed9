-- ===== src/Server/Conservation.antt =====
-- The balance of the counts is kept by changes of the keyspace and of the write log, so by the
-- accessors; the children take it to whole commands.
pub mod Commands
pub mod Covered
pub mod Pops
pub mod Reads
pub mod Collections
pub mod Dispatch
pub mod Timers
pub mod World
pub mod Deletes
pub mod Keys
pub mod Lists
pub mod Streams
pub mod Groups
use ruststream_fred.Common.{◌≡◌, true, ℕ, Bool, List, [], ◌∷◌}
use ruststream_fred.Server.Text.{Bytes}
use ruststream_fred.Server.State.{State, Server, Keyspace, Write, body}
use ruststream_fred.Server.Exec.{◌>>=◌, change}
use ruststream_fred.Server.Exec.Keeps.{Keeps, keeps_rules, change-Keeps}
use ruststream_fred.Server.Keyspace.{Variant, write}
use ruststream_fred.Server.Counts.{log}
use ruststream_fred.Server.Counts.Balance.{IsCounted}

pub keys-IsCounted :
    (handed : ℕ) (s : State) (ks : Keyspace)
    → IsCounted handed s
    → IsCounted handed (record s { keys = ks })
keys-IsCounted handed s ks h = record {
  owed_sorted = h.owed_sorted;
  sets_sorted = h.sets_sorted;
  lists_sorted = h.lists_sorted;
  holds_sorted = h.holds_sorted;
  links_sorted = h.links_sorted;
  held_sorted = h.held_sorted;
  balance = h.balance;
}

pub change_keys-Keeps :
    (handed : ℕ) (f : State → Keyspace)
    → Keeps (IsCounted handed) (change (λ s. record s { keys = f s }))
change_keys-Keeps handed f = change-Keeps _ (λ s h. keys-IsCounted handed s (f s) h)

pub log-IsCounted :
    (handed : ℕ) (name : Bytes) (w : Write) (s : State)
    → IsCounted handed s
    → IsCounted handed (log name w s)
unfolding log
log-IsCounted handed name w s h = record {
  owed_sorted = h.owed_sorted;
  sets_sorted = h.sets_sorted;
  lists_sorted = h.lists_sorted;
  holds_sorted = h.holds_sorted;
  links_sorted = h.links_sorted;
  held_sorted = h.held_sorted;
  balance = h.balance;
}

pub write-Keeps :
    {T : Type 0} (handed : ℕ) (v : Variant T) (key : Bytes) (now : ℕ) (create : Bool)
    → Keeps (IsCounted handed) (write v key now create)
unfolding write
write-Keeps handed v key now create = search (keeps_rules, change_keys-Keeps)

pub ruleset counted_rules = (keeps_rules, change_keys-Keeps, write-Keeps)
