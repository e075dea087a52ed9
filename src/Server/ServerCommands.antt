-- ===== src/Server/ServerCommands.antt =====
-- in_process/keyspace.rs: `server_commands`, the connection, Pub/Sub and scripting commands.
use ruststream_fred.Common.{
  ℕ, ◌+◌, Bool, false, ◌||◌, List, [], ◌∷◌, ◌++◌, Option, none, some, eqb, if◌then◌else◌,
}
use ruststream_fred.Common.Order.{◌==◌, bytes_ord}
use ruststream_fred.Server.Text.{Bytes, b, to_ascii_lowercase}
use ruststream_fred.Server.Value.{Value, string, array, of_list, no_scripts}
use ruststream_fred.Server.State.{Server}
use ruststream_fred.Server.Exec.{Exec, ◌>>=◌, ◌>>◌, pure, refuse}
use ruststream_fred.Server.Args.{left, done, next_bytes, rest, ok_reply, int, bulk}
use ruststream_fred.Server.Counts.{publish}
use ruststream_fred.Server.Keys.{change_with}

-- Whether a name is one of these.
unfoldable pub is_one_of : List Bytes → Bytes → Bool
is_one_of [] name = false
is_one_of (x ∷ xs) name = name == x || is_one_of xs name

-- The reply to a subscription: for each channel its kind, its name and its number.
unfoldable pub subscribed : Bytes → ℕ → List Bytes → List Value
subscribed kind at [] = []
subscribed kind at (c ∷ cs) = string kind ∷ bulk c ∷ int (at + 1) ∷ subscribed kind (at + 1) cs

-- `INFO`, of the version the server answers as.
abbrev pub info_text : Bytes
info_text = b "# Server" ++ 13 ∷ 10 ∷ b "redis_version:8.4.0" ++ 13 ∷ 10 ∷ []

module _ (server : Server) where
  unfoldable pub ping : Exec Value
  ping = do
    n ← left
    if eqb n 0 then pure (string (b "PONG")) else (do x ← next_bytes server; pure (bulk x))

  unfoldable pub echo : Exec Value
  echo = do x ← next_bytes server; pure (bulk x)

  unfoldable pub subscribe : Bytes → Exec Value
  subscribe name = do
    channels ← rest server
    pure (array (of_list (subscribed (to_ascii_lowercase name) 0 channels)))

  -- `PUBLISH`, and `SPUBLISH` on a sharded channel
  unfoldable pub publish_command : Bool → Exec Value
  publish_command shard = do
    channel ← next_bytes server
    message ← next_bytes server
    done
    n ← change_with (publish server channel message shard)
    pure (int n)

  -- `server_commands`
  unfoldable pub server_commands : Bytes → Exec (Option Value)
  server_commands name =
      let answer = λ (m : Exec Value). m >>= λ reply. pure (some reply) in
      if name == b "PING"
      then answer ping
      else if name == b "ECHO"
      then answer echo
      else if is_one_of
          (b "QUIT"
            ∷ b "RESET"
            ∷ b "SELECT"
            ∷ b "CLIENT"
            ∷ b "READONLY"
            ∷ b "READWRITE"
            ∷ b "UNSUBSCRIBE"
            ∷ b "SUNSUBSCRIBE"
            ∷ b "PUNSUBSCRIBE"
            ∷ [])
          name
      then pure (some ok_reply)
      else if name == b "INFO"
      then pure (some (bulk info_text))
      else if is_one_of (b "SUBSCRIBE" ∷ b "SSUBSCRIBE" ∷ b "PSUBSCRIBE" ∷ []) name
      then answer (subscribe name)
      else if name == b "PUBLISH" || name == b "SPUBLISH"
      then answer (publish_command (name == b "SPUBLISH"))
      else if is_one_of
          (b "EVAL"
            ∷ b "EVALSHA"
            ∷ b "EVAL_RO"
            ∷ b "EVALSHA_RO"
            ∷ b "FCALL"
            ∷ b "FCALL_RO"
            ∷ b "SCRIPT"
            ∷ b "FUNCTION"
            ∷ [])
          name
      then refuse (no_scripts name)
      else pure none
