-- ===== src/Server/GroupReads/Fresh.antt =====
-- What `XREADGROUP` with `>` hands out of the stream, past what it claims.
use mathlib.Core.Path.{subst}
use ruststream_fred.Common.{
  ℕ, zero, suc, ◌-◌, ◌≡◌, ◌≢◌, refl, sym, ap, ◌∙◌, arith, Bool, true, false, not, List, [], ◌∷◌,
  Option, none, some, length, take, drop, is_some, if◌then◌else◌,
}
use ruststream_fred.Common.Order.{◌<?◌, nat_ord, pair_ord}
use ruststream_fred.Common.Map.{Map, insert, remove, range_from, keys}
use ruststream_fred.Common.Map.Sorted.{IsSorted}
use ruststream_fred.Server.Text.{Bytes}
use ruststream_fred.Server.State.{EntryId, Duration, Fields, Pending, Group, Stream}
use ruststream_fred.Server.Counts.{next_id}
use ruststream_fred.Server.Ids.{max_id}
use ruststream_fred.Server.Ids.Laws.{IsId, next_id_least}
use ruststream_fred.Server.Groups.{deliver_entry, deliver_fresh, claim_stale, redelivered}
use ruststream_fred.Server.Groups.Reads.{AllIds, deliver_fresh_once}
use ruststream_fred.Server.GroupReads.{claim_now, read_new}

-- The entries whose ids lie above an id.
unfoldable pub entries_above : {V : Type 0} → EntryId → Map EntryId V → Map EntryId V
entries_above id [] = []
entries_above id ((j, w) ∷ m) =
    let rest = entries_above id m in if id <? j then (j, w) ∷ rest else rest

-- An id of 64-bit numbers that is not the greatest.
abbrev pub HasNext : EntryId → Type 0
HasNext id = IsId id × (id ≢ max_id)

flipped : {A : Type 0} (one : Bool) (u v : A) → (if not one then u else v) ≡ (if one then v else u)
flipped true u v = refl
flipped false u v = refl

range_from_above :
    {V : Type 0} (id : EntryId) (m : Map EntryId V)
    → HasNext id
    → AllIds m
    → range_from (next_id id) m ≡ entries_above id m
unfolding range_from entries_above
range_from_above id [] h v = refl
range_from_above id ((j, w) ∷ m) h v =
    rw (next_id_least id j h.0 v.0 h.1, range_from_above id m h v.2)
      (flipped (id <? j) (entries_above id m) ((j, w) ∷ entries_above id m))

all_unless :
    {V : Type 0} (one : Bool) (j : EntryId) (w : V) (m rest : Map EntryId V)
    → AllIds ((j, w) ∷ m)
    → AllIds rest
    → AllIds (if one then rest else (j, w) ∷ rest)
all_unless true j w m rest v h = h
all_unless false j w m rest v h = (v.0, v.1, h)

AllIds-range_from :
    {V : Type 0} (x : EntryId) (m : Map EntryId V) → AllIds m → AllIds (range_from x m)
unfolding range_from
AllIds-range_from x [] v = tt
AllIds-range_from x ((j, w) ∷ m) v =
    all_unless (j <? x) j w m (range_from x m) v (AllIds-range_from x m v.2)

module _ (consumer : Bytes) (now : ℕ) where
  delivered_cursor :
      (noack claims : Bool) (n : ℕ) (l : Map EntryId Fields) (g : Group)
      → AllIds l
      → HasNext g.cursor
      → HasNext (deliver_fresh consumer now noack claims (take n l) g).group.cursor
  unfolding deliver_fresh deliver_entry
  delivered_cursor noack claims zero l g v h = h
  delivered_cursor noack claims (suc n) [] g v h = h
  delivered_cursor noack claims (suc n) ((id, entry) ∷ l) g v h =
      delivered_cursor noack claims n l (deliver_entry consumer now noack id g) v.2 (v.0, v.1)

  stale_cursor :
      (entries : Map EntryId Fields) (stale : List (EntryId × Duration)) (g : Group)
      → (claim_stale consumer now entries stale g).group.cursor ≡ g.cursor
  unfolding claim_stale
  stale_cursor entries [] g = refl
  stale_cursor entries ((id, idle) ∷ stale) g = grind (
    arith,
    stale_cursor entries stale (record g { pending = remove id g.pending }),
    λ (p : Pending).
        stale_cursor entries stale
          (record g { pending = insert id (redelivered consumer now p) g.pending }),
  )

  claim_cursor :
      (claim : Option Duration) (n : ℕ) (noack : Bool) (stream : Stream) (g : Group)
      → (claim_now consumer now
          (record { count = some n; noack = noack; claim = claim })
          stream
          g).group.cursor
        ≡ g.cursor
  claim_cursor none n noack stream g = refl
  claim_cursor (some min_idle) n noack stream g = stale_cursor stream.entries _ g

  read_above :
      (noack claims : Bool) (k : ℕ) (entries : Map EntryId Fields) (g : Group)
      → IsSorted entries
      → AllIds entries
      → HasNext g.cursor
      → let read =
          deliver_fresh consumer now noack claims
            (take k (range_from (next_id g.cursor) entries))
            g in
        (read.ids ≡ keys (take k (entries_above g.cursor entries)))
        × (entries_above read.group.cursor entries ≡ drop k (entries_above g.cursor entries))
  read_above noack claims k entries g s v h =
      let fresh = range_from (next_id g.cursor) entries in
      let read = deliver_fresh consumer now noack claims (take k fresh) g in
      let (ids, left) = deliver_fresh_once consumer now noack claims k entries g s v in
      let before = range_from_above g.cursor entries h v in
      let valid =
        delivered_cursor noack claims k fresh g (AllIds-range_from (next_id g.cursor) entries v)
          h in
      let after = range_from_above read.group.cursor entries valid v in
      (ids ∙ ap (λ t. keys (take k t)) before, sym after ∙ (left ∙ ap (λ t. drop k t) before))

  -- On a stream whose entries are sorted by id, each a 64-bit id below the greatest, and for a
  -- group whose cursor is one too, a read of `>` with `COUNT n`, by a consumer that takes new
  -- entries, hands out, past the `k` entries that it claims, the first `n - k` of the entries above
  -- the cursor, in their order; and the entries above the cursor that it leaves are the others: no
  -- entry is delivered as new twice, and none is passed over.
  pub read_new_once :
      (n : ℕ) (noack : Bool) (claim : Option Duration) (stream : Stream) (g : Group)
      → IsSorted stream.entries
      → AllIds stream.entries
      → HasNext g.cursor
      → let read =
          read_new consumer now true
            (record { count = some n; noack = noack; claim = claim })
            stream
            g in
        let room = n - length read.0.replies in
        (read.1.ids ≡ keys (take room (entries_above g.cursor stream.entries)))
        × (entries_above read.1.group.cursor stream.entries
            ≡ drop room (entries_above g.cursor stream.entries))
  unfolding read_new
  read_new_once n noack claim stream g s v h =
      let claimed =
        claim_now consumer now (record { count = some n; noack = noack; claim = claim }) stream g in
      let room = n - length claimed.replies in
      let same = claim_cursor claim n noack stream g in
      let (ids, left) =
        read_above noack (is_some claim) room stream.entries claimed.group s v
          (subst HasNext (sym same) h) in
      (
        ids ∙ ap (λ t. keys (take room (entries_above t stream.entries))) same,
        left ∙ ap (λ t. drop room (entries_above t stream.entries)) same,
      )
