-- ===== src/Server/Keyspace.antt =====
-- in_process/keyspace.rs: the keyspace, with expiry, and its typed accessors.
pub mod Laws
use ruststream_fred.Common.{
  ℕ, Bool, true, false, ◌&&◌, ◌||◌, not, List, [], ◌∷◌, Option, none, some, leb, ltb, length,
  is_nil, is_some, if◌then◌else◌,
}
use ruststream_fred.Common.Order.{Ord, bytes_ord}
use ruststream_fred.Common.Map.{Map, Set, get, insert, remove}
use ruststream_fred.Server.Text.{Bytes, b}
use ruststream_fred.Server.Value.{Error, wrong_type, Double}
use ruststream_fred.Server.State.{Instant, Data, Entry, Keyspace, Stream, State, Server}
use ruststream_fred.Server.Exec.{
  Exec, Context, Result, ok, err, ◌>>=◌, ◌>>◌, pure, lift, reads, change,
}

-- `Data::type_name`
unfoldable pub type_name : Data → Bytes
type_name (Data.str _) = b "string"
type_name (Data.list _) = b "list"
type_name (Data.hash _) = b "hash"
type_name (Data.set _) = b "set"
type_name (Data.zset _) = b "zset"
type_name (Data.stream _) = b "stream"

-- `Data::is_empty`
abbrev pub is_empty : Data → Bool
is_empty (Data.str _) = false
is_empty (Data.list xs) = is_nil xs
is_empty (Data.hash m) = is_nil m
is_empty (Data.set m) = is_nil m
is_empty (Data.zset m) = is_nil m
is_empty (Data.stream _) = false

-- Whether an expiry has passed.
abbrev pub has_expired : Option Instant → Instant → Bool
has_expired none now = false
has_expired (some at) now = leb at now

abbrev pub live_entry : Option Entry → Instant → Option Data
live_entry none now = none
live_entry (some e) now = if has_expired e.expires now then none else some e.value

-- `Keyspace::live`
unfoldable pub live : Bytes → Instant → Keyspace → Option Data
live key now ks = live_entry (get key ks) now

abbrev pub expired_entry : Option Entry → Instant → Bool
expired_entry none now = false
expired_entry (some e) now = has_expired e.expires now

-- `Keyspace::purge`
unfoldable pub purge : Bytes → Instant → Keyspace → Keyspace
purge key now ks = if expired_entry (get key ks) now then remove key ks else ks

abbrev pub empty_entry : Option Entry → Bool
empty_entry none = false
empty_entry (some e) = is_empty e.value

-- `Keyspace::drop_empty`
unfoldable pub drop_empty : Bytes → Keyspace → Keyspace
drop_empty key ks = if empty_entry (get key ks) then remove key ks else ks

abbrev pub value_of : Option Entry → Option Data
value_of none = none
value_of (some e) = some e.value

-- `Keyspace::remove`: what was removed, and what is left.
unfoldable pub take_out : Bytes → Instant → Keyspace → Option Data × Keyspace
take_out key now ks = (value_of (get key (purge key now ks)), remove key (purge key now ks))

-- `Keyspace::exists`
unfoldable pub exists : Bytes → Instant → Keyspace → Bool
exists key now ks = is_some (live key now ks)

-- `Keyspace::type_of`
unfoldable pub type_of : Bytes → Instant → Keyspace → Bytes
type_of key now ks = elim (live key now ks) [ none ↦ b "none" | some d ↦ type_name d ]

-- One type of value: the arguments of the macro `typed!`.
pub record Variant (T : Type 0) : Type 0 where
  pub inject : T → Data
  pub project : Data → Option T
  pub default : T

as_string : Data → Option Bytes
as_string (Data.str x) = some x
as_string _ = none

as_list : Data → Option (List Bytes)
as_list (Data.list x) = some x
as_list _ = none

as_hash : Data → Option (Map Bytes Bytes)
as_hash (Data.hash x) = some x
as_hash _ = none

as_set : Data → Option (Set Bytes)
as_set (Data.set x) = some x
as_set _ = none

as_zset : Data → Option (Map Bytes Double)
as_zset (Data.zset x) = some x
as_zset _ = none

as_stream : Data → Option Stream
as_stream (Data.stream x) = some x
as_stream _ = none

unfoldable pub strings : Variant Bytes
unfolding as_string
strings = record { inject = Data.str; project = as_string; default = [] }

unfoldable pub lists : Variant (List Bytes)
unfolding as_list
lists = record { inject = Data.list; project = as_list; default = [] }

unfoldable pub hashes : Variant (Map Bytes Bytes)
unfolding as_hash
hashes = record { inject = Data.hash; project = as_hash; default = [] }

unfoldable pub sets : Variant (Set Bytes)
unfolding as_set
sets = record { inject = Data.set; project = as_set; default = [] }

unfoldable pub zsets : Variant (Map Bytes Double)
unfolding as_zset
zsets = record { inject = Data.zset; project = as_zset; default = [] }

unfoldable pub streams : Variant Stream
unfolding as_stream
streams = record {
  inject = Data.stream;
  project = as_stream;
  default = record { entries = []; last = (0, 0); groups = [] };
}

module _ {T : Type 0} (v : Variant T) where
  abbrev projected : Option T → Result (Option T)
  projected none = err wrong_type
  projected (some t) = ok (some t)

  abbrev typed : Option Data → Result (Option T)
  typed none = ok none
  typed (some d) = projected (v.project d)

  -- The reading accessor: an expired key is absent, another type is `WRONGTYPE`.
  unfoldable pub read : Bytes → Instant → Keyspace → Result (Option T)
  read key now ks = typed (live key now ks)

  -- What the writing accessor makes of the keyspace before it looks.
  unfoldable pub prepare : Bytes → Instant → Bool → Keyspace → Keyspace
  prepare key now create ks =
      if create && not (is_some (get key (purge key now ks)))
      then insert key (record { value = v.inject v.default; expires = none }) (purge key now ks)
      else purge key now ks

  -- The value that it then finds.
  unfoldable pub found : Bytes → Keyspace → Result (Option T)
  found key ks = typed (value_of (get key ks))

  -- The writing accessor.
  unfoldable pub write : Bytes → Instant → Bool → Exec (Option T)
  write key now create = do
    change (λ s. record s { keys = prepare key now create s.keys })
    found_now ← reads (λ s. found key s.keys)
    lift found_now

  abbrev stored : Option Entry → Bytes → T → Keyspace → Keyspace
  stored none key t ks = ks
  stored (some e) key t ks = insert key (record e { value = v.inject t }) ks

  -- An assignment through the reference that the writing accessor hands out.
  unfoldable pub store : Bytes → T → Keyspace → Keyspace
  store key t ks = stored (get key ks) key t ks

abbrev or_default : {T : Type 0} → T → Result (Option T) → T
or_default d (ok (some t)) = t
or_default d _ = d

-- `.ok().flatten()`
abbrev pub flat : {T : Type 0} → Result (Option T) → Option T
flat (ok o) = o
flat (err e) = none

-- `Keyspace::list_len`
unfoldable pub list_len : Bytes → Instant → Keyspace → ℕ
list_len key now ks = length (or_default [] (read lists key now ks))

abbrev score_in : Bytes → Option (Map Bytes Double) → Option Double
score_in member none = none
score_in member (some m) = get member m

-- `Keyspace::zscore`
unfoldable pub zscore : Bytes → Bytes → Instant → Keyspace → Option Double
zscore key member now ks = score_in member (flat (read zsets key now ks))

-- `Keyspace::set_string`
unfoldable pub set_string : Bytes → Bytes → Option Instant → Keyspace → Keyspace
set_string key value expires ks =
    insert key (record { value = Data.str value; expires = expires }) ks

abbrev expires_of : Option Entry → Option (Option Instant)
expires_of none = none
expires_of (some e) = some e.expires

-- `Keyspace::expires_mut`, read: the purge is `purge`, an assignment is `set_expires`.
unfoldable pub expiry : Bytes → Keyspace → Option (Option Instant)
expiry key ks = expires_of (get key ks)

abbrev with_expires : Option Entry → Bytes → Option Instant → Keyspace → Keyspace
with_expires none key at ks = ks
with_expires (some e) key at ks = insert key (record e { expires = at }) ks

unfoldable pub set_expires : Bytes → Option Instant → Keyspace → Keyspace
set_expires key at ks = with_expires (get key ks) key at ks
