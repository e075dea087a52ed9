-- ===== src/Broker/Recovery/Sweeps.antt =====
-- What a sweep takes off the processing list, it puts back on the main list.
use ruststream_fred.Common.{
  ℕ, suc, ◌≡◌, refl, ◌∙◌, arith, Bool, true, false, ◌&&◌, List, [], ◌∷◌, Option, none, some, eqb,
  if◌then◌else◌,
}
use ruststream_fred.Common.Order.{◌==◌, bytes_ord}
use ruststream_fred.Server.Text.{Bytes}
use ruststream_fred.Server.Value.{Double, Doubles}
use ruststream_fred.Broker.Calls.{Reply, replied, failed, and_then, went_through, chained}
use ruststream_fred.Broker.Recovery.{
  RecoveryConfig, ListClient, forget_claim, pushed_back, recover_value, recover_member,
  recover_members, sweep_orphans, value_from_member, cutoff,
}

abbrev pub one_more : Bool → ℕ → ℕ
one_more true n = suc n
one_more false n = n

-- The client's calls, as the server documents them, on two lists: `held` counts how often the value
-- `v` stands on the two together.
pub record IsHolding {S : Type 0} (c : ListClient S) (main_key processing_key v : Bytes)
    (held : S → ℕ) : Type 0 where
  pub listed :
      (zset : Bytes) (max : Double) (count : ℕ) (s : S)
      → held (c.zrangebyscore zset max count s).1 ≡ held s
  pub forgotten : (zset member : Bytes) (s : S) → held (c.zrem zset member s).1 ≡ held s
  pub removed :
      (value : Bytes) (n : ℕ) (s t : S)
      → c.lrem processing_key 1 value s ≡ (replied n, t)
      → one_more (eqb n 1 && (v == value)) (held t) ≡ held s
  pub pushed :
      (value : Bytes) (n : ℕ) (s t : S)
      → c.lpush main_key value s ≡ (replied n, t)
      → held t ≡ one_more (v == value) (held s)

module _ {S : Type 0} (c : ListClient S) (main_key processing_key v : Bytes) (held : S → ℕ)
    (holding : IsHolding c main_key processing_key v held) where
  held_pushed :
      (value : Bytes) (s : S) (r : Reply ℕ × S)
      → c.lpush main_key value s ≡ r
      → went_through (and_then {B = Unit {0}} r (λ n t. (replied tt, t))).0 ≡ true
      → held (and_then {B = Unit {0}} r (λ n t. (replied tt, t))).1 ≡ one_more (v == value) (held s)
  held_pushed value s (replied n, t) e w = holding.pushed value n s t e
  held_pushed value s (failed, t) e w = ground (arith, w)

  held_back :
      (value : Bytes) (one : Bool) (t : S)
      → went_through
          (if one
            then and_then (c.lpush main_key value t) (λ n u. (replied tt, u))
            else (replied tt, t)).0
        ≡ true
      → held
          (if one
            then and_then (c.lpush main_key value t) (λ n u. (replied tt, u))
            else (replied tt, t)).1
        ≡ one_more (one && (v == value)) (held t)
  held_back value true t w = held_pushed value t _ refl w
  held_back value false t w = refl

  held_moved :
      (value : Bytes) (s : S) (r : Reply ℕ × S)
      → c.lrem processing_key 1 value s ≡ r
      → went_through (and_then r (λ n t. pushed_back c main_key value n t)).0 ≡ true
      → held (and_then r (λ n t. pushed_back c main_key value n t)).1 ≡ held s
  held_moved value s (replied n, t) e w =
      held_back value (eqb n 1) t w ∙ holding.removed value n s t e
  held_moved value s (failed, t) e w = ground (arith, w)

  held-recover_value :
      (o : Option Bytes) (s : S)
      → went_through (recover_value c main_key processing_key o s).0 ≡ true
      → held (recover_value c main_key processing_key o s).1 ≡ held s
  unfolding recover_value
  held-recover_value none s w = refl
  held-recover_value (some value) s w = held_moved value s _ refl w

  held_done :
      (s : S) (r : Reply ℕ × S)
      → held r.1 ≡ held s
      → went_through (and_then {B = Unit {0}} r (λ n t. (replied tt, t))).0 ≡ true
      → held (and_then {B = Unit {0}} r (λ n t. (replied tt, t))).1 ≡ held s
  held_done s (replied n, t) e w = e
  held_done s (failed, t) e w = ground (arith, w)

  held-forget_claim :
      (zset member : Bytes) (s : S)
      → went_through (forget_claim c zset member s).0 ≡ true
      → held (forget_claim c zset member s).1 ≡ held s
  held-forget_claim zset member s = held_done s _ (holding.forgotten zset member s)

  held-recover_member :
      (cfg : RecoveryConfig) (member : Bytes) (s : S)
      → went_through (recover_member c cfg main_key processing_key member s).0 ≡ true
      → held (recover_member c cfg main_key processing_key member s).1 ≡ held s
  held-recover_member cfg member s =
      chained held (recover_value c main_key processing_key (value_from_member member) s)
        (forget_claim c cfg.zset_key member) s (held-recover_value (value_from_member member) s)
        (held-forget_claim cfg.zset_key member)

  held-recover_members :
      (cfg : RecoveryConfig) (due : List Bytes) (s : S)
      → went_through (recover_members c cfg main_key processing_key due s).0 ≡ true
      → held (recover_members c cfg main_key processing_key due s).1 ≡ held s
  unfolding recover_members
  held-recover_members cfg [] s w = refl
  held-recover_members cfg (member ∷ due) s w =
      chained held (recover_member c cfg main_key processing_key member s)
        (recover_members c cfg main_key processing_key due) s (held-recover_member cfg member s)
        (λ t. held-recover_members cfg due t) w

  held_swept :
      (cfg : RecoveryConfig) (s : S) (r : Reply (List Bytes) × S)
      → held r.1 ≡ held s
      → went_through (and_then r (λ due t. recover_members c cfg main_key processing_key due t)).0
        ≡ true
      → held (and_then r (λ due t. recover_members c cfg main_key processing_key due t)).1 ≡ held s
  held_swept cfg s (replied due, t) e w = held-recover_members cfg due t w ∙ e
  held_swept cfg s (failed, t) e w = ground (arith, w)

  -- On a client whose calls do to two lists what the server documents, a sweep of orphans that no
  -- call fails leaves each value on the processing list and the main list together as often as it
  -- was there: none is lost, and none that another sweep or a settle took is pushed again.
  pub held-sweep_orphans :
      (doubles : Doubles) (now : ℕ) (cfg : RecoveryConfig) (s : S)
      → went_through (sweep_orphans c doubles now cfg main_key processing_key s).0 ≡ true
      → held (sweep_orphans c doubles now cfg main_key processing_key s).1 ≡ held s
  unfolding sweep_orphans
  held-sweep_orphans doubles now cfg s =
      held_swept cfg s _ (holding.listed cfg.zset_key (doubles.of_millis (cutoff now cfg)) 128 s)
