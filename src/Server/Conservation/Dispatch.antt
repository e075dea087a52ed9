-- ===== src/Server/Conservation/Dispatch.antt =====
-- What was handed out stays counted through every command and every transaction.
use ruststream_fred.Common.{ℕ, ◌≡◌, true, List, [], ◌∷◌, Option, none, some, if◌then◌else◌, refl}
use ruststream_fred.Server.Text.{Bytes, to_ascii_uppercase}
use ruststream_fred.Server.Value.{Value}
use ruststream_fred.Server.State.{State, Server}
use ruststream_fred.Server.Exec.{Exec, Result, ok, err, pure}
use ruststream_fred.Server.Exec.Keeps.{Keeps, bind-Keeps, pure-Keeps}
use ruststream_fred.Server.Slots.{Command, check_one_slot, check_transaction_slot}
use ruststream_fred.Server.Dispatch.{
  first_of, families, stream_commands, dispatch, upper_of, after_check, run, Replies, noted,
  run_all, transaction,
}
use ruststream_fred.Server.KeyCommands.{keys_and_strings}
use ruststream_fred.Server.Conservation.Covered.{IsCovered, counted-Keeps}
use ruststream_fred.Server.Conservation.Keys.{keys_and_strings-Keeps}
use ruststream_fred.Server.Conservation.Pops.{list_commands-Covers, list_read_commands-Covers}
use ruststream_fred.Server.Conservation.Reads.{stream_commands-Covers}
use ruststream_fred.Server.Conservation.Collections.{
  server_commands-Covers, hash_commands-Covers, set_commands-Covers, sorted_set_commands-Covers,
}

-- Every family keeps `P`, whatever the name.
abbrev AllKeep : (State → Type 0) → List (Bytes → Exec (Option Value)) → Type 0
AllKeep P [] = Unit
AllKeep P (f ∷ fs) = ((name : Bytes) → Keeps P (f name)) × AllKeep P fs

module _ {P : State → Type 0} where
  answer_or-Keeps :
      (o : Option Value) (otherwise : Exec Value)
      → Keeps P otherwise
      → Keeps P (elim o [ some value ↦ pure value | none ↦ otherwise ])
  answer_or-Keeps none otherwise k = k
  answer_or-Keeps (some value) otherwise k = pure-Keeps value

  first_of-Keeps :
      (fs : List (Bytes → Exec (Option Value))) (name : Bytes) (otherwise : Exec Value)
      → AllKeep P fs
      → Keeps P otherwise
      → Keeps P (first_of fs name otherwise)
  unfolding first_of
  first_of-Keeps [] name otherwise all k = k
  first_of-Keeps (f ∷ fs) name otherwise all k =
      bind-Keeps _ _ (all.0 name)
        λ reply. answer_or-Keeps reply _ (first_of-Keeps fs name otherwise all.1 k)

module _ (server : Server) (installed : server.has_coordinator ≡ true) (n : ℕ) where
  keys_and_strings-Covers : (name : Bytes) → Keeps (IsCovered n) (keys_and_strings server name)
  keys_and_strings-Covers name =
      counted-Keeps n _ (λ handed. keys_and_strings-Keeps server installed handed name)

  dispatch-Covers :
      (name : Bytes) (sub : Option Bytes) → Keeps (IsCovered n) (dispatch server name sub)
  unfolding dispatch
  dispatch-Covers name sub =
      first_of-Keeps (families server) name (stream_commands server name sub)
        (
          server_commands-Covers server installed n,
          (
            keys_and_strings-Covers,
            (
              hash_commands-Covers server installed n,
              (
                set_commands-Covers server installed n,
                (
                  list_commands-Covers server installed n,
                  (
                    list_read_commands-Covers server installed n,
                    (sorted_set_commands-Covers server installed n, tt),
                  ),
                ),
              ),
            ),
          ),
        )
        (stream_commands-Covers server installed n name sub)

  after_check-IsCovered :
      (checked : Result (Unit {0})) (body : State → Result Value × State) (s : State)
      → ((t : State) → IsCovered n t → IsCovered n (body t).1)
      → IsCovered n s
      → IsCovered n (after_check server checked body s).1
  after_check-IsCovered (ok u) body s kept h = kept s h
  after_check-IsCovered (err e) body s kept h = h

  -- Every command, known or not, answered or refused, keeps the bound: if, with a coordinator
  -- installed, what was counted in flight less what the server released is what the server owes and
  -- a number handed out that is `n` at least, and the maps that record it are in the order of their
  -- keys; it is so after the command.
  pub run-IsCovered : (c : Command) (s : State) → IsCovered n s → IsCovered n (run server c s).1
  unfolding run
  run-IsCovered c s h =
      let name = to_ascii_uppercase c.cmd in
      after_check-IsCovered
        (if server.clustered then check_one_slot server name c.arguments else ok tt) _ s
        (λ t k. (dispatch-Covers name (upper_of server c.subcommand)).at _ k) h

  noted-state : (reply : Result Value) (r : Replies server) → (noted server reply r).state ≡ r.state
  noted-state (ok v) r = refl
  noted-state (err e) r = refl

  run_all-IsCovered :
      (cs : List Command) (s : State) → IsCovered n s → IsCovered n (run_all server cs s).state
  unfolding run_all
  run_all-IsCovered [] s h = h
  run_all-IsCovered (c ∷ cs) s h =
      rw (noted-state (run server c s).0 (run_all server cs (run server c s).1))
        (run_all-IsCovered cs (run server c s).1 (run-IsCovered c s h))

  -- Every transaction, also one with commands that fail or that is refused as a whole, keeps the
  -- bound: if, with a coordinator installed, what was counted in flight less what the server
  -- released is what the server owes and a number handed out that is `n` at least, and the maps
  -- that record it are in the order of their keys; it is so after the transaction.
  pub transaction-IsCovered :
      (cs : List Command) (s : State) → IsCovered n s → IsCovered n (transaction server cs s).1
  unfolding transaction
  transaction-IsCovered cs s h =
      after_check-IsCovered (if server.clustered then check_transaction_slot server cs else ok tt) _
        s (λ t k. run_all-IsCovered cs t k) h
