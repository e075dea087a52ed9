-- ===== src/Server/Slots.antt =====
-- in_process/keyspace.rs: the keys of a command, and the slot check of a cluster.
use ruststream_fred.Common.{
  ℕ, ◌-◌, ◌/◌, Bool, true, ◌&&◌, List, [], ◌∷◌, ◌++◌, Option, eqb, length, take, if◌then◌else◌,
}
use ruststream_fred.Common.Order.{bytes_ord}
use ruststream_fred.Server.Text.{Bytes, b, eq_ignore_ascii_case, to_ascii_uppercase}
use ruststream_fred.Server.Value.{Value, crossslot, exec_abort}
use ruststream_fred.Server.State.{Server}
use ruststream_fred.Server.Exec.{Result, ok, err}
use ruststream_fred.Server.Args.{bytes_of}
use ruststream_fred.Server.ServerCommands.{is_one_of}

-- `MockCommand` of fred
pub record Command : Type 0 where
  pub cmd : Bytes
  pub subcommand : Option Bytes
  pub arguments : List Value

-- The position past the first `STREAMS`, or the start.
unfoldable pub past_streams : List Bytes → List Bytes → List Bytes
past_streams whole [] = whole
past_streams whole (w ∷ ws) =
    if eq_ignore_ascii_case w (b "STREAMS") then ws else past_streams whole ws

abbrev keyless : List Bytes
keyless =
    b "PING"
    ∷ b "ECHO"
    ∷ b "QUIT"
    ∷ b "RESET"
    ∷ b "SELECT"
    ∷ b "CLIENT"
    ∷ b "INFO"
    ∷ b "PUBLISH"
    ∷ b "SUBSCRIBE"
    ∷ b "PSUBSCRIBE"
    ∷ b "UNSUBSCRIBE"
    ∷ b "PUNSUBSCRIBE"
    ∷ b "FLUSHALL"
    ∷ b "FLUSHDB"
    ∷ b "READONLY"
    ∷ b "READWRITE"
    ∷ b "MULTI"
    ∷ b "EXEC"
    ∷ b "DISCARD"
    ∷ []

-- Whether all slots are the first one.
unfoldable pub all_equal : ℕ → List ℕ → Bool
all_equal first [] = true
all_equal first (slot ∷ slots) = eqb slot first && all_equal first slots

abbrev pub one_slot : List ℕ → Bool
one_slot [] = true
one_slot (slot ∷ slots) = all_equal slot slots

module _ (server : Server) where
  -- The arguments that are text.
  unfoldable pub texts : List Value → List Bytes
  texts [] = []
  texts (v ∷ vs) =
      let rest = texts vs in elim (bytes_of server.doubles v) [ ok x ↦ x ∷ rest | err e ↦ rest ]

  -- `keys_of`
  unfoldable pub keys_of : Bytes → List Value → List Bytes
  keys_of name values =
      let words = texts values in
      if is_one_of (b "DEL" ∷ b "UNLINK" ∷ b "EXISTS" ∷ b "MGET" ∷ []) name
      then words
      else if is_one_of (b "LMOVE" ∷ b "BLMOVE" ∷ b "RPOPLPUSH" ∷ b "BRPOPLPUSH" ∷ []) name
      then take 2 words
      else if is_one_of (b "BRPOP" ∷ b "BLPOP" ∷ []) name
      then take (length words - 1) words
      else if is_one_of (b "XREADGROUP" ∷ b "XREAD" ∷ []) name
      then (let tail = past_streams words words in take (length tail / 2) tail)
      else if is_one_of keyless name
      then []
      else take 1 words

  unfoldable pub slots_of : List Bytes → List ℕ
  slots_of [] = []
  slots_of (key ∷ keys) = server.keyslot key ∷ slots_of keys

  -- `check_one_slot`
  unfoldable pub check_one_slot : Bytes → List Value → Result (Unit {0})
  check_one_slot name values =
      if one_slot (slots_of (keys_of name values)) then ok tt else err crossslot

  unfoldable pub transaction_keys : List Command → List Bytes
  transaction_keys [] = []
  transaction_keys (c ∷ cs) = keys_of (to_ascii_uppercase c.cmd) c.arguments ++ transaction_keys cs

  -- `check_transaction_slot`
  unfoldable pub check_transaction_slot : List Command → Result (Unit {0})
  check_transaction_slot commands =
      if one_slot (slots_of (transaction_keys commands)) then ok tt else err exec_abort
