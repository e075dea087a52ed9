-- ===== src/Server/Conservation/Covered.antt =====
-- The counts as a bound: what was counted in flight covers what was released, what the server owes,
-- and the deliveries handed out, `n` at least.
use ruststream_fred.Common.{ℕ, ◌+◌, ◌≤◌, ◌≡◌, Bool, true, false, List, arith, if◌then◌else◌}
use ruststream_fred.Common.Map.{Map}
use ruststream_fred.Server.Text.{Bytes}
use ruststream_fred.Server.State.{State, Server, Keyspace, EntryId, Reader}
use ruststream_fred.Server.Exec.{Exec, change}
use ruststream_fred.Server.Exec.Keeps.{Keeps, keeps_rules, change-Keeps}
use ruststream_fred.Server.Keyspace.{Variant, write}
use ruststream_fred.Server.Counts.{list_changed, list_read, registered}
use ruststream_fred.Server.Counts.Balance.{IsCounted, list_changed-IsCounted}
use ruststream_fred.Server.Groups.{handed_out}
use ruststream_fred.Server.Conservation.{keys-IsCounted, write-Keeps}
use ruststream_fred.Server.Conservation.Groups.{handed_to, handed_out-IsCounted}

pub record IsCovered (n : ℕ) (s : State) : Type 0 where
  pub handed : ℕ
  pub at_least : n ≤ handed
  pub counted : IsCounted handed s

-- A change that keeps the balance with any number handed out keeps the bound.
pub counted-IsCovered :
    (f : State → State)
    → ((handed : ℕ) (s : State) → IsCounted handed s → IsCounted handed (f s))
    → (n : ℕ) (s : State) → IsCovered n s
    → IsCovered n (f s)
counted-IsCovered f kept n s c = record {
  handed = c.handed;
  at_least = c.at_least;
  counted = kept c.handed s c.counted;
}

pub counted-Keeps :
    {A : Type 0} (n : ℕ) (m : Exec A)
    → ((handed : ℕ) → Keeps (IsCounted handed) m)
    → Keeps (IsCovered n) m
counted-Keeps n m kept = record {
  at = λ c h. record {
    handed = h.handed;
    at_least = h.at_least;
    counted = (kept h.handed).at c h.counted;
  };
}

pub keys-IsCovered :
    (n : ℕ) (s : State) (ks : Keyspace) → IsCovered n s → IsCovered n (record s { keys = ks })
keys-IsCovered n s ks h = record {
  handed = h.handed;
  at_least = h.at_least;
  counted = keys-IsCounted h.handed s ks h.counted;
}

pub change_keys-Covers :
    (n : ℕ) (f : State → Keyspace) → Keeps (IsCovered n) (change (λ s. record s { keys = f s }))
change_keys-Covers n f = change-Keeps _ (λ s h. keys-IsCovered n s (f s) h)

pub write-Covers :
    {T : Type 0} (n : ℕ) (v : Variant T) (key : Bytes) (now : ℕ) (create : Bool)
    → Keeps (IsCovered n) (write v key now create)
write-Covers n v key now create = counted-Keeps n _ (λ handed. write-Keeps handed v key now create)

pub ruleset covered_rules = (keeps_rules, change_keys-Covers, write-Covers)

module _ (server : Server) (installed : server.has_coordinator ≡ true) (n : ℕ) where
  list_changed-IsCovered :
      (key : Bytes) (pushed popped : ℕ) (s : State)
      → IsCovered n s
      → IsCovered n (list_changed server key pushed popped s)
  list_changed-IsCovered key pushed popped s h = record {
    handed = if list_read key s then h.handed + popped else h.handed;
    at_least = ground (arith, h.at_least);
    counted = list_changed-IsCounted server installed key pushed popped h.handed s h.counted;
  }

  pub list_changed-Covers :
      (key : Bytes) (pushed popped : ℕ)
      → Keeps (IsCovered n) (change (list_changed server key pushed popped))
  list_changed-Covers key pushed popped = change-Keeps _ (list_changed-IsCovered key pushed popped)

  handed_to_more :
      (is_registered : Bool) (handed : ℕ) (ids : List EntryId)
      → n ≤ handed
      → n ≤ handed_to is_registered handed ids
  handed_to_more true handed ids h = omega (arith, h)
  handed_to_more false handed ids h = h

  pub handed_out-Covers :
      (key group consumer : Bytes) (ids : List EntryId) (noack : Bool)
      → Keeps (IsCovered n) (change (handed_out server key group consumer ids noack))
  handed_out-Covers key group consumer ids noack = change-Keeps _ (λ s h. record {
    handed = handed_to (registered key group consumer s) h.handed ids;
    at_least = handed_to_more (registered key group consumer s) h.handed ids h.at_least;
    counted =
        handed_out-IsCounted server installed h.handed key group consumer ids noack s h.counted;
  })

pub readers-IsCounted :
    (handed : ℕ) (s : State) (readers : Map ℕ Reader)
    → IsCounted handed s
    → IsCounted handed (record s { readers = readers })
readers-IsCounted handed s readers h = record {
  owed_sorted = h.owed_sorted;
  sets_sorted = h.sets_sorted;
  lists_sorted = h.lists_sorted;
  holds_sorted = h.holds_sorted;
  links_sorted = h.links_sorted;
  held_sorted = h.held_sorted;
  balance = h.balance;
}
