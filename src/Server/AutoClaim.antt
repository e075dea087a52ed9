-- ===== src/Server/AutoClaim.antt =====
-- in_process/streams.rs: `xautoclaim`.
use ruststream_fred.Common.{
  ℕ, zero, suc, Bool, true, false, ◌||◌, List, [], ◌∷◌, none, some, eqb, if◌then◌else◌,
}
use ruststream_fred.Common.Order.{nat_ord, bytes_ord, pair_ord}
use ruststream_fred.Common.Map.{Map, get, insert, remove, range_from}
use ruststream_fred.Server.Text.{Bytes, b}
use ruststream_fred.Server.Value.{Value, array, of_list, syntax}
use ruststream_fred.Server.State.{EntryId, Duration, Fields, Group, Server, from_millis}
use ruststream_fred.Server.Exec.{Exec, ◌>>=◌, ◌>>◌, pure, refuse, lift, change}
use ruststream_fred.Server.Args.{
  left, word, next_bytes, next_text, next_int, to_usize, unsigned_abs,
}
use ruststream_fred.Server.Ids.{zero_id, id_text, parse_id}
use ruststream_fred.Server.Streams.{entry_value, usize_or_zero}
use ruststream_fred.Server.Groups.{redelivered, idle_entries, handed_out}
use ruststream_fred.Server.GroupCommands.{find_group, store_group}

-- What one `XAUTOCLAIM` did.
pub record Claims : Type 0 where
  pub group : Group
  pub claimed : List EntryId
  pub replies : List Value
  pub deleted : List Value
  pub next : EntryId

abbrev auto_reply : Bool → EntryId → Fields → Value
auto_reply just_id id entry = if just_id then id_text id else array (of_list (entry_value id entry))

-- The loop over the candidates, with the claims still allowed; what is left of them stops it.
unfoldable pub auto_claim :
    Bytes → ℕ → Bool → Map EntryId Fields → ℕ → List (EntryId × Duration) → Group → Claims
auto_claim consumer now just_id entries room [] g = record {
  group = g;
  claimed = [];
  replies = [];
  deleted = [];
  next = zero_id;
}
auto_claim consumer now just_id entries zero ((id, idle) ∷ more) g = record {
  group = g;
  claimed = [];
  replies = [];
  deleted = [];
  next = id;
}
auto_claim consumer now just_id entries (suc room) ((id, idle) ∷ more) g =
    let dropped =
      auto_claim consumer now just_id entries (suc room) more
        (record g { pending = remove id g.pending }) in
    elim (get id entries) [
      | none ↦ record dropped { deleted = id_text id ∷ dropped.deleted }
      | some entry ↦ elim (get id g.pending) [
        | none ↦ dropped
        | some p ↦
            let rest =
              auto_claim consumer now just_id entries room more
                (record g { pending = insert id (redelivered consumer now p) g.pending }) in
            record rest {
              claimed = id ∷ rest.claimed;
              replies = auto_reply just_id id entry ∷ rest.replies;
            }
      ]
    ]

module _ (server : Server) where
  -- The loop over `COUNT` and `JUSTID`, a round for each argument left.
  unfoldable pub claim_options : ℕ → ℕ → Bool → Exec (ℕ × Bool)
  claim_options zero count just_id = pure (count, just_id)
  claim_options (suc fuel) count just_id = do
    n ← left
    counts ← if eqb n 0 then pure false else word server "COUNT"
    justs ← if eqb n 0 || counts then pure false else word server "JUSTID"
    if eqb n 0
        then pure (count, just_id)
        else if counts
        then (next_int server >>= λ z. claim_options fuel (usize_or_zero (to_usize z)) just_id)
        else if justs
        then claim_options fuel count true
        else refuse syntax

  -- `State::xautoclaim`
  unfoldable pub xautoclaim : Exec Value
  xautoclaim = do
    key ← next_bytes server
    name ← next_bytes server
    consumer ← next_bytes server
    idle ← next_int server
    text ← next_text server
    start ← lift (parse_id text)
    n ← left
    options ← claim_options (suc n) 100 false
    found ← find_group server key name (b "XAUTOCLAIM")
    let g = record found.1 { consumers = insert consumer tt found.1.consumers }
    let candidates =
        idle_entries server.now (from_millis (unsigned_abs idle)) (range_from start g.pending)
    let claims = auto_claim consumer server.now options.1 found.0.entries options.0 candidates g
    store_group server key name found.0 claims.group
    change (handed_out server key name consumer claims.claimed false)
    pure (
        array (
          of_list (
            id_text claims.next
            ∷ array (of_list claims.replies)
            ∷ array (of_list claims.deleted)
            ∷ [])))
