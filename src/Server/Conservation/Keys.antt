-- ===== src/Server/Conservation/Keys.antt =====
-- The balance under the commands on keys and strings.
use ruststream_fred.Common.{ℕ, zero, suc, ◌≡◌, Bool, true, List}
use ruststream_fred.Common.Int.{ℤ}
use ruststream_fred.Common.Order.{bytes_ord, pair_ord}
use ruststream_fred.Server.Text.{Bytes}
use ruststream_fred.Server.State.{State, Server}
use ruststream_fred.Server.Exec.{Exec, Context, change}
use ruststream_fred.Server.Exec.Keeps.{Keeps, change-Keeps, bind-Keeps, reads-Keeps, pure-Keeps}
use ruststream_fred.Server.Args.Laws.{args_rules}
use ruststream_fred.Server.Keys.{delete_all, expire, change_with, SetOptions}
use ruststream_fred.Server.KeyCommands.{
  purge_key, read_string, del_command, exists_command, type_command, expire_command,
  persist_command, ttl_command, flush_command, get_command, set_options, old_reply, kept_expiry,
  make_room, set_value, set_command, increment, incr_command, negative_amount, keys_and_strings,
}
use ruststream_fred.Server.Counts.Balance.{IsCounted}
use ruststream_fred.Server.Conservation.{counted_rules}
use ruststream_fred.Server.Conservation.Deletes.{
  delete_all-IsCounted, expire-IsCounted, make_room-IsCounted,
}

pub change_with-Keeps :
    {A : Type 0} {P : State → Type 0} (f : State → A × State)
    → ((s : State) → P s → P (f s).1)
    → Keeps P (change_with f)
unfolding change_with
change_with-Keeps f kept =
    bind-Keeps _ _ (reads-Keeps _) λ a. bind-Keeps _ _ (change-Keeps _ kept) λ u. pure-Keeps a

module _ (server : Server) (installed : server.has_coordinator ≡ true) (handed : ℕ) where
  delete_all-Keeps :
      (keys : List Bytes) → Keeps (IsCounted handed) (change_with (delete_all server keys))
  delete_all-Keeps keys = change_with-Keeps _ (delete_all-IsCounted server installed handed keys)

  expire-Keeps :
      (key : Bytes) (millis : ℤ) → Keeps (IsCounted handed) (change_with (expire server key millis))
  expire-Keeps key millis =
      change_with-Keeps _ (expire-IsCounted server installed handed key millis)

  make_room-Keeps : (key : Bytes) → Keeps (IsCounted handed) (change (make_room server key))
  make_room-Keeps key = change-Keeps _ (make_room-IsCounted server installed handed key)

  purge_key-Keeps : (key : Bytes) → Keeps (IsCounted handed) (purge_key server key)
  unfolding purge_key
  purge_key-Keeps key = search counted_rules

  read_string-Keeps : (key : Bytes) → Keeps (IsCounted handed) (read_string server key)
  unfolding read_string
  read_string-Keeps key = search counted_rules

  set_options-Keeps :
      (fuel : ℕ) (o : SetOptions) → Keeps (IsCounted handed) (set_options server fuel o)
  unfolding set_options
  set_options-Keeps zero o = search args_rules
  set_options-Keeps (suc fuel) o = search (args_rules, set_options-Keeps fuel) depth 24

  old_reply-Keeps :
      (asked : Bool) (key : Bytes) → Keeps (IsCounted handed) (old_reply server asked key)
  unfolding old_reply
  old_reply-Keeps asked key = search (counted_rules, read_string-Keeps)

  kept_expiry-Keeps :
      (o : SetOptions) (key : Bytes) → Keeps (IsCounted handed) (kept_expiry server o key)
  unfolding kept_expiry
  kept_expiry-Keeps o key = search (counted_rules, purge_key-Keeps)

  set_value-Keeps :
      (key value : Bytes) (o : SetOptions) → Keeps (IsCounted handed) (set_value server key value o)
  unfolding set_value
  set_value-Keeps key value o =
      search (counted_rules, old_reply-Keeps, kept_expiry-Keeps, make_room-Keeps) depth 12

  set_command-Keeps : Keeps (IsCounted handed) (set_command server)
  unfolding set_command
  set_command-Keeps = search (args_rules, set_options-Keeps, set_value-Keeps) depth 12

  increment-Keeps : (key : Bytes) (by : ℤ) → Keeps (IsCounted handed) (increment server key by)
  unfolding increment
  increment-Keeps key by = search (counted_rules, read_string-Keeps, purge_key-Keeps) depth 12

  incr_command-Keeps :
      (amount : Exec ℤ)
      → Keeps (IsCounted handed) amount
      → Keeps (IsCounted handed) (incr_command server amount)
  unfolding incr_command
  incr_command-Keeps amount kept =
      bind-Keeps _ _ (search args_rules)
        λ key. bind-Keeps _ _ kept λ by. search (args_rules, increment-Keeps)

  negative_amount-Keeps : Keeps (IsCounted handed) (negative_amount server)
  unfolding negative_amount
  negative_amount-Keeps = search args_rules

  del_command-Keeps : Keeps (IsCounted handed) (del_command server)
  unfolding del_command
  del_command-Keeps = search (args_rules, delete_all-Keeps) depth 9

  exists_command-Keeps : Keeps (IsCounted handed) (exists_command server)
  unfolding exists_command
  exists_command-Keeps = search args_rules

  type_command-Keeps : Keeps (IsCounted handed) (type_command server)
  unfolding type_command
  type_command-Keeps = search args_rules

  expire_command-Keeps : (seconds : Bool) → Keeps (IsCounted handed) (expire_command server seconds)
  unfolding expire_command
  expire_command-Keeps seconds = search (args_rules, expire-Keeps) depth 9

  persist_command-Keeps : Keeps (IsCounted handed) (persist_command server)
  unfolding persist_command
  persist_command-Keeps = search (args_rules, counted_rules, purge_key-Keeps) depth 9

  ttl_command-Keeps : (seconds : Bool) → Keeps (IsCounted handed) (ttl_command server seconds)
  unfolding ttl_command
  ttl_command-Keeps seconds = search (args_rules, purge_key-Keeps) depth 9

  flush_command-Keeps : Keeps (IsCounted handed) (flush_command server)
  unfolding flush_command
  flush_command-Keeps = search (args_rules, delete_all-Keeps) depth 9

  get_command-Keeps : Keeps (IsCounted handed) (get_command server)
  unfolding get_command
  get_command-Keeps = search (args_rules, read_string-Keeps) depth 9

  pub keys_and_strings-Keeps :
      (name : Bytes) → Keeps (IsCounted handed) (keys_and_strings server name)
  unfolding keys_and_strings
  keys_and_strings-Keeps name =
      search
        (
          args_rules, del_command-Keeps, exists_command-Keeps, type_command-Keeps,
          expire_command-Keeps, persist_command-Keeps, ttl_command-Keeps, flush_command-Keeps,
          get_command-Keeps, set_command-Keeps, incr_command-Keeps, negative_amount-Keeps,
        )
        depth 24

  -- With a coordinator installed, each command on keys and strings (`DEL`, `EXPIRE`, `FLUSHALL`,
  -- `SET` and the others) keeps the balance of the counts, answered or refused: where the
  -- deliveries counted in flight are those released, those the server owes and `handed` handed out,
  -- and the maps that record them are in the order of their keys, they are so afterwards, with the
  -- same `handed`.
  keys_and_strings-IsCounted :
      (name : Bytes) (c : Context)
      → IsCounted handed c.state
      → IsCounted handed (keys_and_strings server name c).1.state
  keys_and_strings-IsCounted name c h = (keys_and_strings-Keeps name).at c h
