-- ===== src/Server/Collections.antt =====
-- in_process/keyspace.rs: the commands on hashes and on sets.
pub mod Members
use ruststream_fred.Common.{
  ℕ, zero, suc, ◌+◌, Bool, true, false, ◌||◌, not, List, [], ◌∷◌, Option, none, some, eqb, leb,
  length, is_nil, is_some, if◌then◌else◌,
}
use ruststream_fred.Common.Int.{ℤ}
use ruststream_fred.Common.Order.{bytes_ord, ◌==◌}
use ruststream_fred.Common.Map.{Map, Set, get, insert, remove, contains_key, keys}
use ruststream_fred.Server.Text.{Bytes, b}
use ruststream_fred.Server.Text.Decimal.{print_int}
use ruststream_fred.Server.Value.{Value, Values, integer, array, of_list, not_integer, panic}
use ruststream_fred.Server.State.{Server, State, Fields}
use ruststream_fred.Server.Exec.{
  Exec, Result, ◌>>=◌, ◌>>◌, pure, refuse, lift, reads, change, required,
}
use ruststream_fred.Server.Args.{
  left, refuse_arity, next_bytes, next_int, rest, ok_reply, int, bulk, bulk_or_null,
}
use ruststream_fred.Server.Keyspace.{Variant, hashes, sets, read, write, store, drop_empty}
use ruststream_fred.Server.Streams.{pairs, flat_fields}
use ruststream_fred.Server.Keys.{checked_add, number_in, flag}

-- The entries that an insertion added, and the map with them.
unfoldable pub insert_all : {V : Type 0} → List (Bytes × V) → Map Bytes V → ℕ × Map Bytes V
insert_all [] m = (0, m)
insert_all ((k, v) ∷ rest) m =
    let (n, m') = insert_all rest (insert k v m) in ((if contains_key k m then n else suc n), m')

-- The keys that were there and were removed, as a count, and the map without them.
unfoldable pub remove_keys : {V : Type 0} → List Bytes → Map Bytes V → ℕ × Map Bytes V
remove_keys [] m = (0, m)
remove_keys (k ∷ rest) m =
    let (n, m') = remove_keys rest (remove k m) in ((if contains_key k m then suc n else n), m')

abbrev as_members : List Bytes → List (Bytes × Unit {0})
as_members [] = []
as_members (x ∷ xs) = (x, tt) ∷ as_members xs

abbrev is_odd : ℕ → Bool
is_odd zero = false
is_odd (suc n) = not (is_odd n)

abbrev or_empty_map : {V : Type 0} → Option (Map Bytes V) → Map Bytes V
or_empty_map none = []
or_empty_map (some m) = m

abbrev bulks : List Bytes → List Value
bulks [] = []
bulks (x ∷ xs) = bulk x ∷ bulks xs

module _ (server : Server) where
  unfoldable pub read_map : {V : Type 0} → Variant (Map Bytes V) → Bytes → Exec (Map Bytes V)
  read_map v key = do
    held ← reads (λ s. read v key server.now s.keys)
    found ← lift held
    pure (or_empty_map found)

  -- An insertion into a hash or a set, created where the key has none; answers how many are new.
  unfoldable pub add_all : {V : Type 0} → Variant (Map Bytes V) → Bytes → List (Bytes × V) → Exec ℕ
  add_all v key entries = do
    held ← write v key server.now true
    m ← required held panic
    let added = insert_all entries m
    change (λ s. record s { keys = store v key added.1 s.keys })
    pure added.0

  abbrev pub without :
      {V : Type 0} → Variant (Map Bytes V) → Bytes → List Bytes → Option (Map Bytes V) → Exec ℕ
  without v key names none = pure 0
  without v key names (some m) = do
    change (λ s. record s { keys = store v key (remove_keys names m).1 s.keys })
    pure (remove_keys names m).0

  -- A removal from a hash or a set, dropped where it is left empty; answers how many went.
  unfoldable pub drop_all : {V : Type 0} → Variant (Map Bytes V) → Bytes → List Bytes → Exec ℕ
  drop_all v key names = do
    held ← write v key server.now false
    n ← without v key names held
    change (λ s. record s { keys = drop_empty key s.keys })
    pure n

  unfoldable pub hset : Bool → Exec Value
  hset answers_ok = do
    key ← next_bytes server
    values ← rest server
    if is_nil values || is_odd (length values) then refuse_arity else (do
      added ← add_all hashes key (pairs values)
      pure (if answers_ok then ok_reply else int added))

  unfoldable pub hget : Exec Value
  hget = do
    key ← next_bytes server
    field ← next_bytes server
    m ← read_map hashes key
    pure (bulk_or_null (get field m))

  unfoldable pub hgetall : Exec Value
  hgetall = do
    key ← next_bytes server
    m ← read_map hashes key
    pure (array (of_list (flat_fields m)))

  unfoldable pub hdel : Exec Value
  hdel = do
    key ← next_bytes server
    names ← rest server
    n ← drop_all hashes key names
    pure (int n)

  unfoldable pub hexists : Exec Value
  hexists = do
    key ← next_bytes server
    field ← next_bytes server
    m ← read_map hashes key
    pure (flag (contains_key field m))

  unfoldable pub hlen : Exec Value
  hlen = do key ← next_bytes server; m ← read_map hashes key; pure (int (length m))

  unfoldable pub hincrby : Exec Value
  hincrby = do
    key ← next_bytes server
    field ← next_bytes server
    by ← next_int server
    held ← write hashes key server.now true
    m ← required held panic
    current ← lift (number_in server (get field m))
    next ← required (checked_add current by) not_integer
    change (λ s. record s { keys = store hashes key (insert field (print_int next) m) s.keys })
    pure (integer next)

  -- `hashes`
  unfoldable pub hash_commands : Bytes → Exec (Option Value)
  hash_commands name =
      let answer = λ (m : Exec Value). m >>= λ reply. pure (some reply) in
      if name == b "HSET" || name == b "HMSET"
      then answer (hset (name == b "HMSET"))
      else if name == b "HGET"
      then answer hget
      else if name == b "HGETALL"
      then answer hgetall
      else if name == b "HDEL"
      then answer hdel
      else if name == b "HEXISTS"
      then answer hexists
      else if name == b "HLEN"
      then answer hlen
      else if name == b "HINCRBY"
      then answer hincrby
      else pure none

  unfoldable pub sadd : Exec Value
  sadd = do
    key ← next_bytes server
    members ← rest server
    added ← add_all sets key (as_members members)
    pure (int added)

  unfoldable pub srem : Exec Value
  srem = do
    key ← next_bytes server
    members ← rest server
    n ← drop_all sets key members
    pure (int n)

  unfoldable pub smembers : Exec Value
  smembers = do
    key ← next_bytes server
    m ← read_map sets key
    pure (array (of_list (bulks (keys m))))

  unfoldable pub sismember : Exec Value
  sismember = do
    key ← next_bytes server
    member ← next_bytes server
    m ← read_map sets key
    pure (flag (contains_key member m))

  unfoldable pub scard : Exec Value
  scard = do key ← next_bytes server; m ← read_map sets key; pure (int (length m))

  -- `sets`
  unfoldable pub set_commands : Bytes → Exec (Option Value)
  set_commands name =
      let answer = λ (m : Exec Value). m >>= λ reply. pure (some reply) in
      if name == b "SADD"
      then answer sadd
      else if name == b "SREM"
      then answer srem
      else if name == b "SMEMBERS"
      then answer smembers
      else if name == b "SISMEMBER"
      then answer sismember
      else if name == b "SCARD"
      then answer scard
      else pure none
