-- ===== src/Broker/Delay/Sweeps.antt =====
-- What a sweep takes off the queue, it adds to the stream.
use ruststream_fred.Common.{
  ℕ, suc, ◌≡◌, refl, ◌∙◌, arith, Bool, true, false, List, [], ◌∷◌, Option, none, some, eqb,
  if◌then◌else◌,
}
use ruststream_fred.Server.Text.{Bytes}
use ruststream_fred.Server.Value.{Double}
use ruststream_fred.Envelope.Seal.{HeaderMaps, EntryFields, Envelope}
use ruststream_fred.Broker.Calls.{Reply, replied, failed, and_then, went_through, chained}
use ruststream_fred.Broker.Delay.{decode_member, Client, fields_of, move_back, sweep_members}

module _ {H S : Type 0} (m : HeaderMaps H) (retry_header : Bytes)
    (c : Client m retry_header S) where
  -- What a removal that answers `n` does to a count: one less for one removed.
  abbrev taken_by : ℕ → ℕ → ℕ
  taken_by n total = if eqb n 1 then suc total else total

  -- The client's calls, as the server documents them: `total` counts the members of the queue and
  -- the entries of the stream together.
  pub record IsCounting (total : S → ℕ) : Type 0 where
    pub listed :
        (zset : Bytes) (max : Double) (count : ℕ) (s : S)
        → total (c.due zset max count s).1 ≡ total s
    pub removed :
        (zset member : Bytes) (n : ℕ) (s t : S)
        → c.zrem zset member s ≡ (replied n, t)
        → taken_by n (total t) ≡ total s
    pub added :
        (stream : Bytes) (fields : EntryFields) (u : Unit {0}) (s t : S)
        → c.xadd stream fields s ≡ (replied u, t)
        → total t ≡ suc (total s)

  module _ (total : S → ℕ) (counting : IsCounting total) where
    added_one :
        (stream : Bytes) (fields : EntryFields) (s : S) (r : Reply (Unit {0}) × S)
        → c.xadd stream fields s ≡ r
        → went_through r.0 ≡ true
        → total r.1 ≡ suc (total s)
    added_one stream fields s (replied u, t) e w = counting.added stream fields u s t e
    added_one stream fields s (failed, t) e w = ground (arith, w)

    moved :
        (one : Bool) (stream : Bytes) (fields : EntryFields) (t : S)
        → went_through (if one then c.xadd stream fields t else (replied tt, t)).0 ≡ true
        → total (if one then c.xadd stream fields t else (replied tt, t)).1
          ≡ (if one then suc (total t) else total t)
    moved true stream fields t w = added_one stream fields t _ refl w
    moved false stream fields t w = refl

    moved_back :
        (zset stream member : Bytes) (fields : EntryFields) (s : S) (r : Reply ℕ × S)
        → c.zrem zset member s ≡ r
        → went_through
            (and_then r (λ n t. if eqb n 1 then c.xadd stream fields t else (replied tt, t))).0
          ≡ true
        → total (and_then r (λ n t. if eqb n 1 then c.xadd stream fields t else (replied tt, t))).1
          ≡ total s
    moved_back zset stream member fields s (replied n, t) e w =
        moved (eqb n 1) stream fields t w ∙ counting.removed zset member n s t e
    moved_back zset stream member fields s (failed, t) e w = ground (arith, w)

    total-move_back :
        (zset stream member : Bytes) (o : Option EntryFields) (s : S)
        → went_through (move_back m retry_header c zset stream member o s).0 ≡ true
        → total (move_back m retry_header c zset stream member o s).1 ≡ total s
    total-move_back zset stream member none s w = refl
    total-move_back zset stream member (some fields) s w =
        moved_back zset stream member fields s (c.zrem zset member s) refl w

    -- On a client whose removals and additions count as documented, a sweep that no call fails
    -- leaves as many members and entries together as there were: each member that it takes off the
    -- queue is an entry, and no entry is added for a member that another sweep took.
    pub total-sweep_members :
        (zset stream : Bytes) (envelope : Envelope H) (members : List Bytes) (s : S)
        → went_through (sweep_members m retry_header c zset stream envelope members s).0 ≡ true
        → total (sweep_members m retry_header c zset stream envelope members s).1 ≡ total s
    unfolding sweep_members
    total-sweep_members zset stream envelope [] s w = refl
    total-sweep_members zset stream envelope (member ∷ members) s w =
        let o = fields_of m retry_header c envelope (decode_member m retry_header member) in
        chained total (move_back m retry_header c zset stream member o s)
          (sweep_members m retry_header c zset stream envelope members) s
          (total-move_back zset stream member o s)
          (λ t. total-sweep_members zset stream envelope members t) w
