-- ===== src/Server/Lists/Commands.antt =====
-- What the pushing commands answer and leave behind.
use ruststream_fred.Common.{
  ℕ, ◌≡◌, refl, ap, ◌∙◌, true, List, [], ◌∷◌, Option, none, some, arith, length, if◌then◌else◌,
}
use ruststream_fred.Common.Order.{bytes_ord, ◌==◌}
use ruststream_fred.Server.Text.{Bytes}
use ruststream_fred.Server.Value.{wrong_type}
use ruststream_fred.Server.State.{Data, State, Server, Keyspace, owe, body}
use ruststream_fred.Server.Exec.{Context, ok, err, ◌>>=◌, pure, lift, reads, change, required}
use ruststream_fred.Server.Args.{int}
use ruststream_fred.Server.Keyspace.{lists, live, read, write, prepare, found, store}
use ruststream_fred.Server.Keyspace.Laws.{
  found-prepare, live-store, live-prepare_refused, lists-IsLawful,
}
use ruststream_fred.Server.Counts.{log, list_changed}
use ruststream_fred.Server.Lists.{End, push_all, log_all, list_or_nil}
use ruststream_fred.Server.ListCommands.{push_values}

keys-log_all : (key : Bytes) (vs : List Bytes) (s : State) → (log_all key vs s).keys ≡ s.keys
unfolding log_all log
keys-log_all key [] s = refl
keys-log_all key (v ∷ vs) s = keys-log_all key vs (log key (body v) s)

keys-list_changed :
    (server : Server) (key : Bytes) (pushed popped : ℕ) (s : State)
    → (list_changed server key pushed popped s).keys ≡ s.keys
unfolding list_changed owe
keys-list_changed server key pushed popped s = ground arith

-- The list that a creating accessor finds.
found_list :
    (key : Bytes) (now : ℕ) (ks : Keyspace) (o : Option (List Bytes))
    → read lists key now ks ≡ ok o
    → found lists key (prepare lists key now true ks) ≡ ok (some (list_or_nil o))
unfolding lists
found_list key now ks none h = found-prepare lists lists-IsLawful key now true ks ∙ rw h refl
found_list key now ks (some xs) h = found-prepare lists lists-IsLawful key now true ks ∙ rw h refl

module _ (server : Server) (end : End) (key : Bytes) (values : List Bytes) where
  -- `LPUSH` and `RPUSH` on a key that holds a list, or nothing: the reply is the length of the list
  -- with the values pushed one by one, the key then reads as that list, and every other key reads
  -- as before.
  pub push_values_lem :
      (o : Option (List Bytes)) (c : Context)
      → read lists key server.now c.state.keys ≡ ok o
      → let pushed = push_all end values (list_or_nil o) in
        let r = push_values server end key values c in
        (r.0 ≡ ok (int (length pushed)))
        × ((k : Bytes)
            → live k server.now r.1.state.keys
              ≡ (if key == k then some (Data.list pushed) else live k server.now c.state.keys))
  unfolding push_values write ◌>>=◌ pure lift reads change required lists
  push_values_lem o c h =
      let ready = found_list key server.now c.state.keys o h in
      let pushed = push_all end values (list_or_nil o) in
      let ks = store lists key pushed (prepare lists key server.now true c.state.keys) in
      let s = record c.state { keys = ks } in
      rw ready (
        refl,
        λ k.
            ap (λ t. live k server.now t)
              (keys-list_changed server key (length values) 0 (log_all key values s)
                ∙ keys-log_all key values s)
            ∙ pushed_live k ready,
      )
    where
      pushed_live :
          (k : Bytes)
          → found lists key (prepare lists key server.now true c.state.keys)
            ≡ ok (some (list_or_nil o))
          → live k server.now (
              store lists key
                (push_all end values (list_or_nil o))
                (prepare lists key server.now true c.state.keys))
            ≡ (if key == k
                then some (Data.list (push_all end values (list_or_nil o)))
                else live k server.now c.state.keys)
      pushed_live k ready =
          live-store lists lists-IsLawful key k server.now true
            (push_all end values (list_or_nil o)) (list_or_nil o) c.state.keys ready

  -- `LPUSH` and `RPUSH` on a key that holds a value of another type answer the wrong-type error,
  -- and every key reads as before.
  pub push_values_wrong_type :
      (c : Context)
      → read lists key server.now c.state.keys ≡ err wrong_type
      → let r = push_values server end key values c in
        (r.0 ≡ err wrong_type)
        × ((k : Bytes) → live k server.now r.1.state.keys ≡ live k server.now c.state.keys)
  unfolding push_values write ◌>>=◌ pure lift reads change required
  push_values_wrong_type c h =
      let refused =
        found-prepare lists lists-IsLawful key server.now true c.state.keys ∙ rw h refl in
      rw refused (
        refl,
        λ k. live-prepare_refused lists lists-IsLawful key k server.now true c.state.keys refused,
      )
