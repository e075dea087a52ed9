-- ===== src/Server/KeyCommands.antt =====
-- in_process/keyspace.rs: `set` and `keys_and_strings`.
use ruststream_fred.Common.{
  ℕ, zero, suc, ◌+◌, ◌*◌, Bool, true, false, ◌&&◌, ◌||◌, not, Option, none, some, eqb, is_nil,
  if◌then◌else◌,
}
use ruststream_fred.Common.Int.{ℤ, pos, negsuc}
use ruststream_fred.Common.Order.{bytes_ord, ◌==◌}
use ruststream_fred.Common.Map.{keys}
use ruststream_fred.Server.Text.{Bytes, b}
use ruststream_fred.Server.Text.Decimal.{print_int}
use ruststream_fred.Server.Value.{Value, integer, string, null, syntax, not_integer}
use ruststream_fred.Server.State.{Server, State, from_millis}
use ruststream_fred.Server.Exec.{Exec, ◌>>=◌, ◌>>◌, pure, refuse, lift, reads, change, required}
use ruststream_fred.Server.Args.{
  left, refuse_arity, done, word, next_bytes, next_int, rest, ok_reply, int, bulk_or_null,
}
use ruststream_fred.Server.Keyspace.{
  strings, read, purge, exists, type_of, set_string, expiry, set_expires,
}
use ruststream_fred.Server.Keys.{
  fits, checked_add, negated, thousandfold, number_in, flag, delete, delete_all, expire,
  positive_expiry, SetOptions, count_exists, change_with, time_left, has_expiry, expiry_or_none,
  is_refused,
}

module _ (server : Server) where
  unfoldable pub purge_key : Bytes → Exec (Unit {0})
  purge_key key = change (λ s. record s { keys = purge key server.now s.keys })

  unfoldable pub read_string : Bytes → Exec (Option Bytes)
  read_string key = do held ← reads (λ s. read strings key server.now s.keys); lift held

  -- `DEL` and `UNLINK`
  unfoldable pub del_command : Exec Value
  del_command = do
    keys ← rest server
    if is_nil keys
        then refuse_arity
        else (do n ← change_with (delete_all server keys); pure (int n))

  unfoldable pub exists_command : Exec Value
  exists_command = do keys ← rest server; n ← reads (count_exists server.now keys); pure (int n)

  unfoldable pub type_command : Exec Value
  type_command = do
    key ← next_bytes server
    name ← reads (λ s. type_of key server.now s.keys)
    pure (string name)

  -- `EXPIRE`, in seconds, and `PEXPIRE`
  unfoldable pub expire_command : Bool → Exec Value
  expire_command seconds = do
    key ← next_bytes server
    amount ← next_int server
    done_now ← change_with (expire server key (if seconds then thousandfold amount else amount))
    pure (flag done_now)

  unfoldable pub persist_command : Exec Value
  persist_command = do
    key ← next_bytes server
    purge_key key
    was ← reads (λ s. has_expiry (expiry key s.keys))
    change (λ s. record s { keys = set_expires key none s.keys })
    pure (flag was)

  -- `TTL`, in seconds, and `PTTL`
  unfoldable pub ttl_command : Bool → Exec Value
  ttl_command seconds = do
    key ← next_bytes server
    purge_key key
    at ← reads (λ s. expiry key s.keys)
    pure (integer (time_left seconds server.now at))

  -- `FLUSHALL` and `FLUSHDB`
  unfoldable pub flush_command : Exec Value
  flush_command = do
    all_keys ← reads (λ s. keys s.keys)
    n ← change_with (delete_all server all_keys)
    pure ok_reply

  unfoldable pub get_command : Exec Value
  get_command = do key ← next_bytes server; held ← read_string key; pure (bulk_or_null held)

  -- The loop over the options of `SET`: a round takes an argument at least.
  unfoldable pub set_options : ℕ → SetOptions → Exec SetOptions
  set_options zero o = refuse syntax
  set_options (suc fuel) o = do
    n ← left
    if eqb n 0 then pure o else (do
      only_new ← word server "NX"
      if only_new then set_options fuel (record o { only_new = true }) else (do
        only_old ← word server "XX"
        if only_old then set_options fuel (record o { only_old = true }) else (do
          answer ← word server "GET"
          if answer then set_options fuel (record o { answer_old = true }) else (do
            keep ← word server "KEEPTTL"
            if keep then set_options fuel (record o { keep_ttl = true }) else (do
              in_seconds ← word server "EX"
              if in_seconds
                  then (do
                    amount ← next_int server
                    secs ← lift (positive_expiry amount)
                    set_options fuel
                        (record o { expires = some (server.now + secs * 1_000_000_000) }))
                  else (do
                    in_millis ← word server "PX"
                    if in_millis
                        then (do
                          amount ← next_int server
                          millis ← lift (positive_expiry amount)
                          set_options fuel
                              (record o { expires = some (server.now + from_millis millis) }))
                        else refuse syntax))))))

  -- The old value that `GET` asks for.
  unfoldable pub old_reply : Bool → Bytes → Exec Value
  old_reply asked key =
      if asked then (do held ← read_string key; pure (bulk_or_null held)) else pure ok_reply

  unfoldable pub kept_expiry : SetOptions → Bytes → Exec (Option ℕ)
  kept_expiry o key =
      if o.keep_ttl
      then (do purge_key key; reads (λ s. expiry_or_none (expiry key s.keys)))
      else pure o.expires

  -- A value of another type is deleted before a string takes its place.
  unfoldable pub make_room : Bytes → State → State
  make_room key s =
      if exists key server.now s.keys && is_refused (read strings key server.now s.keys)
      then (delete server key s).1
      else s

  unfoldable pub set_value : Bytes → Bytes → SetOptions → Exec Value
  set_value key value o = do
    reply ← old_reply o.answer_old key
    held ← reads (λ s. exists key server.now s.keys)
    if (o.only_new && held) || (o.only_old && not held)
        then pure (if o.answer_old then reply else null)
        else (do
          expires ← kept_expiry o key
          change (make_room key)
          change (λ s. record s { keys = set_string key value expires s.keys })
          pure reply)

  -- `set`
  unfoldable pub set_command : Exec Value
  set_command = do
    key ← next_bytes server
    value ← next_bytes server
    n ← left
    o ← set_options (suc n) (record {
      only_new = false;
      only_old = false;
      answer_old = false;
      keep_ttl = false;
      expires = none;
    })
    set_value key value o

  -- What an increment adds to the number at a key.
  unfoldable pub increment : Bytes → ℤ → Exec Value
  increment key by = do
    held ← read_string key
    current ← lift (number_in server held)
    next ← required (checked_add current by) not_integer
    purge_key key
    change (λ s. record s {
      keys = set_string key (print_int next) (expiry_or_none (expiry key s.keys)) s.keys;
    })
    pure (integer next)

  unfoldable pub incr_command : Exec ℤ → Exec Value
  incr_command amount = do key ← next_bytes server; by ← amount; done; increment key by

  unfoldable pub negative_amount : Exec ℤ
  negative_amount = do n ← next_int server; required (fits (negated n)) not_integer

  unfoldable pub keys_and_strings : Bytes → Exec (Option Value)
  keys_and_strings name =
      let answer = λ (m : Exec Value). m >>= λ reply. pure (some reply) in
      if name == b "DEL" || name == b "UNLINK"
      then answer del_command
      else if name == b "EXISTS"
      then answer exists_command
      else if name == b "TYPE"
      then answer type_command
      else if name == b "EXPIRE" || name == b "PEXPIRE"
      then answer (expire_command (name == b "EXPIRE"))
      else if name == b "PERSIST"
      then answer persist_command
      else if name == b "TTL" || name == b "PTTL"
      then answer (ttl_command (name == b "TTL"))
      else if name == b "FLUSHALL" || name == b "FLUSHDB"
      then answer flush_command
      else if name == b "GET"
      then answer get_command
      else if name == b "SET"
      then answer set_command
      else if name == b "INCR"
      then answer (incr_command (pure (pos 1)))
      else if name == b "DECR"
      then answer (incr_command (pure (negsuc 0)))
      else if name == b "INCRBY"
      then answer (incr_command (next_int server))
      else if name == b "DECRBY"
      then answer (incr_command negative_amount)
      else pure none
