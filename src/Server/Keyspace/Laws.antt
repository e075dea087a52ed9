-- ===== src/Server/Keyspace/Laws.antt =====
-- What the accessors promise: reads after writes, keys of another type, and expiry.
use ruststream_fred.Common.{
  Bool, false, ◌≡◌, refl, none, some, arith, if◌then◌else◌, Option-cases, inl, inr,
}
use ruststream_fred.Common.Order.{bytes_ord, ◌==◌}
use ruststream_fred.Common.Map.{get, remove, get-insert, get-remove}
use ruststream_fred.Server.Text.{Bytes}
use ruststream_fred.Server.Value.{wrong_type}
use ruststream_fred.Server.State.{Instant, Entry, Keyspace}
use ruststream_fred.Server.Exec.{ok, err}
use ruststream_fred.Server.Keyspace.{
  live, purge, Variant, strings, lists, streams, read, prepare, found, store, has_expired,
}

-- A variant reads back what it holds, and nothing else.
pub record IsLawful {T : Type 0} (v : Variant T) : Type 0 where
  pub project_inject : (t : T) → v.project (v.inject t) ≡ some t

pub strings-IsLawful : IsLawful strings
unfolding strings
strings-IsLawful = record { project_inject = λ t. refl }

pub lists-IsLawful : IsLawful lists
unfolding lists
lists-IsLawful = record { project_inject = λ t. refl }

pub streams-IsLawful : IsLawful streams
unfolding streams
streams-IsLawful = record { project_inject = λ t. refl }

-- Dropping a key that has expired is seen by no read at that time, of that key or of any other.
pub live-purge :
    (key k : Bytes) (now : Instant) (ks : Keyspace) → live k now (purge key now ks) ≡ live k now ks
unfolding live purge
live-purge key k now ks = ground (arith, get-remove key k ks, bytes_ord.eq_of_cmp key k)

module _ {T : Type 0} (v : Variant T) (lawful : IsLawful v) where
  -- A writing accessor finds what a reading one reads, or a new empty value where it creates one:
  -- so a value it was asked to create is there, and its `expect` does not fail.
  pub found-prepare :
      (key : Bytes) (now : Instant) (create : Bool) (ks : Keyspace)
      → found v key (prepare v key now create ks) ≡ elim (read v key now ks) [
        | err e ↦ err e
        | ok (some t) ↦ ok (some t)
        | ok none ↦ ok (if create then some v.default else none)
      ]
  unfolding found prepare read live purge
  found-prepare key now create ks = ground (
    arith,
    lawful.project_inject v.default,
    get-insert key key (record { value = v.inject v.default; expires = none }) ks,
    get-insert key key (record { value = v.inject v.default; expires = none }) (remove key ks),
    get-remove key key ks,
    bytes_ord.cmp_self key,
  )

  get-store :
      (key k : Bytes) (t : T) (ks : Keyspace) (e : Entry)
      → get key ks ≡ some e
      → get k (store v key t ks)
        ≡ (if key == k then some (record e { value = v.inject t }) else get k ks)
  unfolding store
  get-store key k t ks e h =
      ground (arith, h, get-insert key k (record e { value = v.inject t }) ks)

  found_entry :
      (key : Bytes) (u : T) (ks : Keyspace)
      → found v key ks ≡ ok (some u)
      → (e : Entry) × (get key ks ≡ some e)
  unfolding found
  found_entry key u ks h = elim (Option-cases (get key ks)) [
    | inl absent ↦ absurd (ground (arith, absent))
    | inr (e, there) ↦ (e, there)
  ]

  -- What a writing accessor leaves at its key has not expired.
  prepared_current :
      (key : Bytes) (now : Instant) (create : Bool) (ks : Keyspace) (e : Entry)
      → get key (prepare v key now create ks) ≡ some e
      → has_expired e.expires now ≡ false
  unfolding prepare purge
  prepared_current key now create ks e there = ground (
    arith,
    there,
    bytes_ord.cmp_self key,
    get-insert key key (record { value = v.inject v.default; expires = none }) ks,
    get-insert key key (record { value = v.inject v.default; expires = none }) (remove key ks),
    get-remove key key ks,
  )

  get-prepare_ne :
      (key k : Bytes) (now : Instant) (create : Bool) (ks : Keyspace)
      → (key == k) ≡ false
      → get k (prepare v key now create ks) ≡ get k ks
  unfolding prepare purge
  get-prepare_ne key k now create ks h = ground (
    arith,
    get-insert key k (record { value = v.inject v.default; expires = none }) ks,
    get-insert key k (record { value = v.inject v.default; expires = none }) (remove key ks),
    get-remove key k ks,
  )

  -- For a lawful type of value: where a writing accessor finds a value at a key and another is
  -- stored there, every read then sees that other value at the key and, at each other key, what it
  -- saw before the accessor ran.
  pub live-store :
      (key k : Bytes) (now : Instant) (create : Bool) (t u : T) (ks : Keyspace)
      → found v key (prepare v key now create ks) ≡ ok (some u)
      → live k now (store v key t (prepare v key now create ks))
        ≡ (if key == k then some (v.inject t) else live k now ks)
  unfolding live
  live-store key k now create t u ks h =
      let (e, there) = found_entry key u (prepare v key now create ks) h in
      let current = prepared_current key now create ks e there in
      ground (
        arith,
        current,
        get-store key k t (prepare v key now create ks) e there,
        get-prepare_ne key k now create ks,
      )

  -- For a lawful type of value: where a writing accessor refuses a key because it holds another
  -- type, no read sees a change.
  pub live-prepare_refused :
      (key k : Bytes) (now : Instant) (create : Bool) (ks : Keyspace)
      → found v key (prepare v key now create ks) ≡ err wrong_type
      → live k now (prepare v key now create ks) ≡ live k now ks
  unfolding found prepare live purge
  live-prepare_refused key k now create ks h = ground (
    arith,
    bytes_ord.eq_of_cmp key k,
    bytes_ord.cmp_self key,
    lawful.project_inject v.default,
    get-insert key key (record { value = v.inject v.default; expires = none }) ks,
    get-insert key key (record { value = v.inject v.default; expires = none }) (remove key ks),
    get-insert key k (record { value = v.inject v.default; expires = none }) ks,
    get-insert key k (record { value = v.inject v.default; expires = none }) (remove key ks),
    get-remove key k ks,
    get-remove key key ks,
  )
