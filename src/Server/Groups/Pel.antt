-- ===== src/Server/Groups/Pel.antt =====
-- The pending entries list: acknowledging, claiming, and who owns what.
use ruststream_fred.Common.{
  ℕ, ◌+◌, ◌≡◌, refl, Bool, true, false, ◌||◌, List, [], ◌∷◌, Option, none, some, arith, length,
  if◌then◌else◌, Option-cases, inl, inr,
}
use ruststream_fred.Common.Order.{◌==◌, nat_ord, pair_ord, bytes_ord}
use ruststream_fred.Common.Map.{Map, get, insert, remove, contains_key, get-remove, get-insert}
use ruststream_fred.Common.Map.Sorted.{IsSorted, length-remove, remove-IsSorted}
use ruststream_fred.Server.Text.{Bytes}
use ruststream_fred.Server.State.{EntryId, Duration, Fields, Pending, Group}
use ruststream_fred.Server.Groups.{ack_ids, redelivered, claim_stale}

-- Whether an id stands in a list.
abbrev pub has_id : EntryId → List EntryId → Bool
has_id id [] = false
has_id id (j ∷ js) = (j == id) || has_id id js

-- An acknowledgement takes each named entry off the pending list and leaves every other as it was.
pub get-ack_ids :
    (id : EntryId) (ids : List EntryId) (ps : Map EntryId Pending)
    → get id (ack_ids ids ps).1 ≡ (if has_id id ids then none else get id ps)
unfolding ack_ids
get-ack_ids id [] ps = refl
get-ack_ids id (j ∷ ids) ps = ground (arith, get-ack_ids id ids (remove j ps), get-remove j id ps)

-- On a sorted pending list, the ids that an acknowledgement reports are as many as it took off the
-- list: an id named twice, or not pending, is not counted again.
pub length-ack_ids :
    (ids : List EntryId) (ps : Map EntryId Pending)
    → IsSorted ps
    → length (ack_ids ids ps).0 + length (ack_ids ids ps).1 ≡ length ps
unfolding ack_ids
length-ack_ids [] ps s = omega arith
length-ack_ids (j ∷ ids) ps s =
    ground (arith, length-ack_ids ids (remove j ps) (remove-IsSorted j ps s), length-remove j ps s)

-- A claim hands each entry to the claiming consumer, counted once more and delivered now; a stale
-- entry that the stream has lost leaves the list; an entry that is not stale is untouched.
abbrev pub after_claim : Bytes → ℕ → Bool → Bool → Option Pending → Option Pending
after_claim consumer now is_stale held none = none
after_claim consumer now false held (some p) = some p
after_claim consumer now true false (some p) = none
after_claim consumer now true true (some p) = some (redelivered consumer now p)

abbrev pub is_stale : EntryId → List (EntryId × Duration) → Bool
is_stale id [] = false
is_stale id ((j, idle) ∷ js) = (j == id) || is_stale id js

-- No id stands twice.
abbrev pub AreDistinct : List (EntryId × Duration) → Type 0
AreDistinct [] = Unit
AreDistinct ((j, idle) ∷ js) = (is_stale j js ≡ false) × AreDistinct js

-- Over distinct stale ids, a claim leaves each stale entry that the stream holds pending with the
-- claiming consumer, counted once more and delivered now; takes a stale entry that the stream has
-- lost off the pending list; and leaves every other entry as it was, pending or not.
pub get-claim_stale :
    (consumer : Bytes) (now : ℕ) (id : EntryId) (entries : Map EntryId Fields)
    (stale : List (EntryId × Duration)) (g : Group)
    → AreDistinct stale
    → get id (claim_stale consumer now entries stale g).group.pending
      ≡ after_claim consumer now (is_stale id stale) (contains_key id entries) (get id g.pending)
unfolding claim_stale
get-claim_stale consumer now id entries [] g d = ground arith
get-claim_stale consumer now id entries ((j, idle) ∷ stale) g d =
    let lost = record g { pending = remove j g.pending } in
    let ih_lost = get-claim_stale consumer now id entries stale lost d.1 in
    let same = (pair_ord {A = ℕ} {B = ℕ}).eq_of_cmp j id in
    elim (Option-cases (get j g.pending)) [
      | inl absent ↦ ground (arith, absent, ih_lost, get-remove j id g.pending, same, d.0)
      | inr (p, found) ↦
          let taken = record g { pending = insert j (redelivered consumer now p) g.pending } in
          ground (
            arith,
            found,
            ih_lost,
            get-claim_stale consumer now id entries stale taken d.1,
            get-remove j id g.pending,
            get-insert j id (redelivered consumer now p) g.pending,
            same,
            d.0,
          )
    ]
