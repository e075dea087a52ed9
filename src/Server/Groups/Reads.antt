-- ===== src/Server/Groups/Reads.antt =====
-- What a read of new entries hands out: each entry once, in order, and pending from then on.
use mathlib.Core.Path.{subst}
use ruststream_fred.Common.{
  ℕ, zero, suc, ◌≡◌, ◌≢◌, refl, ap, ◌∙◌, sym, Bool, true, false, not, ◌&&◌, [], ◌∷◌, some, arith,
  take, drop, if◌then◌else◌, inl, inr, Bool-cases,
}
use ruststream_fred.Common.Order.{◌≺◌, ◌<?◌, nat_ord, pair_ord, bytes_ord}
use ruststream_fred.Common.Map.{Map, get, range_from, keys, contains_key, get-insert}
use ruststream_fred.Common.Map.Sorted.{IsSorted, Above}
use ruststream_fred.Server.Text.{Bytes}
use ruststream_fred.Server.State.{EntryId, Fields, Pending, Group}
use ruststream_fred.Server.Counts.{next_id}
use ruststream_fred.Server.Ids.{max_id}
use ruststream_fred.Server.Ids.Laws.{IsId}
use ruststream_fred.Server.Groups.{deliver_entry, deliver_fresh}

-- Every key is an id below the greatest.
abbrev pub AllIds : {V : Type 0} → Map EntryId V → Type 0
AllIds [] = Unit
AllIds ((id, v) ∷ m) = IsId id × (id ≢ max_id) × AllIds m

not_below : (k j : EntryId) → (k ≺ j) → (j <? k) ≡ false
not_below (a, c) (d, e) h = ground arith

below_trans : (x j i : EntryId) → (j <? x) ≡ false → j ≺ i → (i <? x) ≡ false
below_trans (a, c) (d, e) (f, g) h k = ground arith

lt_next_trans : (i j : EntryId) → IsId j → j ≢ max_id → i ≺ j → (i <? next_id j) ≡ true
unfolding next_id
lt_next_trans (a, c) (d, e) h ne k = ground arith

self_next : (j : EntryId) → IsId j → j ≢ max_id → (j <? next_id j) ≡ true
unfolding next_id
self_next (d, e) h ne = ground arith

above_next : (j i : EntryId) → IsId j → IsId i → j ≢ max_id → j ≺ i → (i <? next_id j) ≡ false
unfolding next_id
above_next (a, c) (d, e) h h' ne k = ground arith

module _ {V : Type 0} where
  -- A range from a key at or below the least keeps everything.
  range_from_all :
      (x j : EntryId) (m : Map EntryId V) → (j <? x) ≡ false → Above j m → range_from x m ≡ m
  unfolding range_from
  range_from_all x j [] h a = refl
  range_from_all x j ((i, w) ∷ m) h a =
      rw (below_trans x j i h a.0) (ap (λ t. (i, w) ∷ t) (range_from_all x j m h a.1))

  range_from_next :
      (j : EntryId) (m : Map EntryId V)
      → IsId j
      → j ≢ max_id
      → AllIds m
      → Above j m
      → range_from (next_id j) m ≡ m
  unfolding range_from
  range_from_next j [] h ne v a = refl
  range_from_next j ((i, w) ∷ m) h ne v a =
      rw (above_next j i h v.0 ne a.0) (ap (λ t. (i, w) ∷ t) (range_from_next j m h ne v.2 a.1))

  -- The first entry of a range lies above what lies below the map.
  head_above :
      (x j id : EntryId) (w : V) (m rest : Map EntryId V)
      → Above j m
      → range_from x m ≡ (id, w) ∷ rest
      → j ≺ id
  unfolding range_from
  head_above x j id w [] rest a e = cc
  head_above x j id w ((i, u) ∷ m) rest a e = elim (Bool-cases (i <? x)) [
    | inl t ↦ head_above x j id w m rest a.1 (ground arith)
    | inr f ↦ ground arith
  ]

  head_valid :
      (x id : EntryId) (w : V) (m rest : Map EntryId V)
      → AllIds m
      → range_from x m ≡ (id, w) ∷ rest
      → IsId id × (id ≢ max_id)
  unfolding range_from
  head_valid x id w [] rest a e = cc
  head_valid x id w ((i, u) ∷ m) rest a e = elim (Bool-cases (i <? x)) [
    | inl t ↦ head_valid x id w m rest a.2 (ground arith)
    | inr f ↦ let same : i ≡ id = ground arith in subst (λ t. IsId t × (t ≢ max_id)) same (a.0, a.1)
  ]

  -- Past the first entry of a range lies the rest of it.
  range_from_tail :
      (x id : EntryId) (w : V) (m rest : Map EntryId V)
      → IsSorted m
      → AllIds m
      → range_from x m ≡ (id, w) ∷ rest
      → range_from (next_id id) m ≡ rest
  unfolding range_from
  range_from_tail x id w [] rest s v e = cc
  range_from_tail x id w ((i, u) ∷ m) rest s v e = elim (Bool-cases (i <? x)) [
    | inl t ↦
        let later : range_from x m ≡ (id, w) ∷ rest = ground arith in
        let (fits, below) = head_valid x id w m rest v.2 later in
        rw (lt_next_trans i id fits below (head_above x i id w m rest s.0 later))
          (range_from_tail x id w m rest s.1 v.2 later)
    | inr f ↦
        let same : i ≡ id = ground arith in
        let past : rest ≡ m = ground (arith, range_from_all x i m f s.0) in
        subst (λ t. range_from (next_id t) ((i, u) ∷ m) ≡ rest) same
          (rw (self_next i v.0 v.1) (range_from_next i m v.0 v.1 v.2 s.0 ∙ sym past))
  ]

module _ (consumer : Bytes) (now : ℕ) (noack claims : Bool) where
  -- The ids that a read delivers are those of the entries, in their order.
  deliver_fresh-ids :
      (fresh : Map EntryId Fields) (g : Group)
      → (deliver_fresh consumer now noack claims fresh g).ids ≡ keys fresh
  unfolding deliver_fresh
  deliver_fresh-ids [] g = refl
  deliver_fresh-ids ((id, entry) ∷ fresh) g =
      ap (λ t. id ∷ t) (deliver_fresh-ids fresh (deliver_entry consumer now noack id g))

  take_past :
      (n : ℕ) (entries l : Map EntryId Fields) (g : Group)
      → IsSorted entries
      → AllIds entries
      → range_from (next_id g.cursor) entries ≡ l
      → range_from
          (next_id (deliver_fresh consumer now noack claims (take n l) g).group.cursor)
          entries
        ≡ drop n l
  unfolding deliver_fresh deliver_entry
  take_past zero entries l g s v e = e
  take_past (suc n) entries [] g s v e = e
  take_past (suc n) entries ((id, entry) ∷ l) g s v e =
      take_past n entries l (deliver_entry consumer now noack id g) s v
        (range_from_tail (next_id g.cursor) id entry entries l s v e)

  -- Over entries sorted by id, each a 64-bit id below the greatest, a read of `n` new entries hands
  -- out the first `n` past the group's cursor, in order, and what is new to the group afterwards is
  -- what was new before less those `n`.
  pub deliver_fresh_once :
      (n : ℕ) (entries : Map EntryId Fields) (g : Group)
      → IsSorted entries
      → AllIds entries
      → let fresh = range_from (next_id g.cursor) entries in
        let read = deliver_fresh consumer now noack claims (take n fresh) g in
        (read.ids ≡ keys (take n fresh))
        × (range_from (next_id read.group.cursor) entries ≡ drop n fresh)
  deliver_fresh_once n entries g s v = (
    deliver_fresh-ids (take n (range_from (next_id g.cursor) entries)) g,
    take_past n entries (range_from (next_id g.cursor) entries) g s v refl,
  )

-- The pending entry of a first delivery.
abbrev pub first_delivery : Bytes → ℕ → Pending
first_delivery consumer now = record { consumer = consumer; at = now; count = 1 }

-- A read without `NOACK` leaves each delivered entry pending with the reading consumer, delivered
-- once and now, and all other pending entries as they were; a read with `NOACK` leaves all as they
-- were.
pub get-deliver_fresh :
    (consumer : Bytes) (now : ℕ) (noack claims : Bool) (id : EntryId) (fresh : Map EntryId Fields)
    (g : Group)
    → get id (deliver_fresh consumer now noack claims fresh g).group.pending ≡ (
        if not noack && contains_key id fresh
        then some (first_delivery consumer now)
        else get id g.pending)
unfolding deliver_fresh deliver_entry get
get-deliver_fresh consumer now noack claims id [] g = ground arith
get-deliver_fresh consumer now noack claims id ((j, entry) ∷ fresh) g = ground (
  arith,
  get-deliver_fresh consumer now noack claims id fresh (deliver_entry consumer now noack j g),
  get-insert j id (first_delivery consumer now) g.pending,
)
