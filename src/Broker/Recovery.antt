-- ===== src/Broker/Recovery.antt =====
-- recovery.rs: the watchdog of a reliable list, a sorted set of the claims in flight. The calls of
-- the client, the clock and the process id are parameters.
pub mod Members
pub mod Sweeps
use ruststream_fred.Common.{
  ℕ, ◌+◌, ◌-◌, ◌/◌, ◌%◌, ◌^◌, List, [], ◌∷◌, ◌++◌, Option, none, some, eqb, if◌then◌else◌,
}
use ruststream_fred.Server.Text.{Bytes}
use ruststream_fred.Server.Value.{Double, Doubles}
use ruststream_fred.Server.State.{Duration}
use ruststream_fred.Envelope.Wire.{u32_bytes}
use ruststream_fred.Broker.Calls.{Reply, replied, failed, and_then}
use ruststream_fred.Broker.Delay.{delay_millis, ttl_millis, tail_from}

-- `u64::to_be_bytes`
abbrev pub u64_bytes : ℕ → Bytes
u64_bytes n = u32_bytes (n / 2 ^ 32) ++ u32_bytes (n % 2 ^ 32)

-- `claim_member`, with the number that the process's counter hands out.
unfoldable pub claim_member : ℕ → ℕ → Bytes → Bytes
claim_member process_id n value = u32_bytes process_id ++ (u64_bytes n ++ value)

-- `COUNTER.fetch_add(1)`, which wraps.
abbrev pub next_claim : ℕ → ℕ
next_claim n = (n + 1) % 2 ^ 64

unfoldable pub value_from_member : Bytes → Option Bytes
value_from_member member = tail_from 12 member

pub record RecoveryConfig : Type 0 where
  pub zset_key : Bytes
  pub min_idle : Duration
  pub ttl : Option Duration

-- `RecoveryConfig::tracked`, at `now` in epoch milliseconds
abbrev pub tracked : Doubles → ℕ → ℕ → ℕ → Bytes → Double × Bytes
tracked doubles now process_id n value = (doubles.of_millis now, claim_member process_id n value)

-- `RecoveryConfig::ttl_millis`
abbrev pub claim_ttl_millis : RecoveryConfig → Option ℕ
claim_ttl_millis cfg = elim cfg.ttl [ none ↦ none | some ttl ↦ some (ttl_millis ttl) ]

abbrev pub cutoff : ℕ → RecoveryConfig → ℕ
cutoff now cfg = now - delay_millis cfg.min_idle

pub record ListClient (S : Type 0) : Type 0 where
  pub zadd : Bytes → Double → Bytes → S → Reply ℕ × S
  pub pexpire : Bytes → ℕ → S → Reply ℕ × S
  pub zrangebyscore : Bytes → Double → ℕ → S → Reply (List Bytes) × S
  pub zrem : Bytes → Bytes → S → Reply ℕ × S
  pub lrem : Bytes → ℕ → Bytes → S → Reply ℕ × S
  pub lpush : Bytes → Bytes → S → Reply ℕ × S

module _ {S : Type 0} (c : ListClient S) where
  abbrev pub rearmed : RecoveryConfig → Bytes → S → Reply Bytes × S
  rearmed cfg member s = elim cfg.ttl [
    | none ↦ (replied member, s)
    | some ttl ↦
        and_then (c.pexpire cfg.zset_key (ttl_millis ttl) s) (λ armed t. (replied member, t))
  ]

  -- `record_claim`: its answer, the state it leaves, and the counter after it.
  unfoldable pub record_claim :
      Doubles → ℕ → ℕ → RecoveryConfig → Bytes → ℕ → S → (Reply Bytes × S) × ℕ
  record_claim doubles now process_id cfg value n s =
      let member = claim_member process_id n value in
      (
        and_then (c.zadd cfg.zset_key (doubles.of_millis now) member s)
            (λ added t. rearmed cfg member t),
        next_claim n,
      )

  -- `forget`
  abbrev pub forget_claim : Bytes → Bytes → S → Reply (Unit {0}) × S
  forget_claim zset_key member s = and_then (c.zrem zset_key member s) (λ n t. (replied tt, t))

  abbrev pub pushed_back : Bytes → Bytes → ℕ → S → Reply (Unit {0}) × S
  pushed_back main_key value removed s =
      if eqb removed 1
      then and_then (c.lpush main_key value s) (λ n t. (replied tt, t))
      else (replied tt, s)

  -- What a sweep does with a due member's value; a member too short for one has none.
  unfoldable pub recover_value : Bytes → Bytes → Option Bytes → S → Reply (Unit {0}) × S
  recover_value main_key processing_key none s = (replied tt, s)
  recover_value main_key processing_key (some value) s =
      and_then (c.lrem processing_key 1 value s) (λ removed t. pushed_back main_key value removed t)

  abbrev pub recover_member : RecoveryConfig → Bytes → Bytes → Bytes → S → Reply (Unit {0}) × S
  recover_member cfg main_key processing_key member s =
      and_then (recover_value main_key processing_key (value_from_member member) s)
        (λ done t. forget_claim cfg.zset_key member t)

  -- The loop of `sweep_orphans`.
  unfoldable pub recover_members :
      RecoveryConfig → Bytes → Bytes → List Bytes → S → Reply (Unit {0}) × S
  recover_members cfg main_key processing_key [] s = (replied tt, s)
  recover_members cfg main_key processing_key (member ∷ due) s =
      and_then (recover_member cfg main_key processing_key member s)
        (λ done t. recover_members cfg main_key processing_key due t)

  -- `sweep_orphans`
  unfoldable pub sweep_orphans :
      Doubles → ℕ → RecoveryConfig → Bytes → Bytes → S → Reply (Unit {0}) × S
  sweep_orphans doubles now cfg main_key processing_key s =
      and_then (c.zrangebyscore cfg.zset_key (doubles.of_millis (cutoff now cfg)) 128 s)
        (λ due t. recover_members cfg main_key processing_key due t)
