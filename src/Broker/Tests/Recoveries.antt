-- ===== src/Broker/Tests/Recoveries.antt =====
-- A claim's member read back, and a sweep of orphans on a client that counts one value.
use ruststream_fred.Common.{
  ℕ, zero, suc, ◌+◌, ◌≡◌, refl, sym, ap, arith, Bool, true, false, ◌&&◌, [], ◌∷◌, some, none, eqb,
}
use ruststream_fred.Common.Order.{◌==◌, bytes_ord}
use ruststream_fred.Server.Text.{Bytes, b}
use ruststream_fred.Server.Tests.{test_server}
use ruststream_fred.Envelope.Wire.{u32_bytes}
use ruststream_fred.Broker.Calls.{Reply, replied, failed}
use ruststream_fred.Broker.Recovery.{
  RecoveryConfig, ListClient, claim_member, value_from_member, recover_value, recover_members,
  sweep_orphans,
}
use ruststream_fred.Broker.Recovery.Members.{value_from_member-claim_member}
use ruststream_fred.Broker.Recovery.Sweeps.{one_more, IsHolding, held-sweep_orphans}

value_from_member-claim_member_example :
    (value_from_member (claim_member 7 1 (b "dup")) ≡ some (b "dup"))
    × (claim_member 7 1 (b "dup") ≡ claim_member 7 2 (b "dup") → ◌≡◌ {A = ℕ} 1 2)
value_from_member-claim_member_example =
    value_from_member-claim_member 7 1 2 (b "dup") (b "dup") (omega arith) (omega arith)

abbrev job : Bytes
job = b "job"

abbrev taken_if : Bool → ℕ × ℕ → Reply ℕ × (ℕ × ℕ)
taken_if true (zero, main) = (replied 0, (0, main))
taken_if true (suc processing, main) = (replied 1, (processing, main))
taken_if false s = (replied 1, s)

-- A processing list and a main list of which only the jobs are counted.
abbrev job_client : ListClient (ℕ × ℕ)
job_client = record {
  zadd = λ zset score member s. (replied 1, s);
  pexpire = λ zset ttl s. (replied 1, s);
  zrangebyscore = λ zset max count s. (replied (claim_member 7 1 job ∷ []), s);
  zrem = λ zset member s. (replied 1, s);
  lrem = λ key count value s. taken_if (job == value) s;
  lpush = λ key value s. (replied 1, (s.0, one_more (job == value) s.1));
}

abbrev jobs_held : ℕ × ℕ → ℕ
jobs_held (processing, main) = processing + main

abbrev answered : Reply ℕ → ℕ
answered (replied n) = n
answered failed = 0

taken_self :
    (same : Bool) (s : ℕ × ℕ)
    → one_more (eqb (answered (taken_if same s).0) 1 && same) (jobs_held (taken_if same s).1)
      ≡ jobs_held s
taken_self true (zero, main) = refl
taken_self true (suc processing, main) = omega arith
taken_self false (processing, main) = ground arith

taken_held :
    (same : Bool) (n : ℕ) (s t : ℕ × ℕ)
    → taken_if same s ≡ (replied n, t)
    → one_more (eqb n 1 && same) (jobs_held t) ≡ jobs_held s
taken_held same n s t e =
    let n_is = ap (λ (p : Reply ℕ × (ℕ × ℕ)). answered p.0) e in
    let t_is = ap (λ (p : Reply ℕ × (ℕ × ℕ)). p.1) e in rw (sym n_is, sym t_is) (taken_self same s)

pushed_self :
    (same : Bool) (processing main : ℕ)
    → processing + one_more same main ≡ one_more same (processing + main)
pushed_self true processing main = omega arith
pushed_self false processing main = refl

pushed_held :
    (same : Bool) (n : ℕ) (s t : ℕ × ℕ)
    → ◌≡◌ {A = Reply ℕ × (ℕ × ℕ)} (replied 1, (s.0, one_more same s.1)) (replied n, t)
    → jobs_held t ≡ one_more same (jobs_held s)
pushed_held same n (processing, main) t e =
    let t_is = ap (λ (p : Reply ℕ × (ℕ × ℕ)). p.1) e in
    rw (sym t_is) (pushed_self same processing main)

job_client-IsHolding : IsHolding job_client (b "jobs") (b "jobs:processing") job jobs_held
job_client-IsHolding = record {
  listed = λ zset max count s. refl;
  forgotten = λ zset member s. refl;
  removed = λ value n s t e. taken_held (job == value) n s t e;
  pushed = λ value n s t e. pushed_held (job == value) n s t e;
}

abbrev one_minute : RecoveryConfig
one_minute = record { zset_key = b "claims"; min_idle = 60_000_000_000; ttl = none }

held-sweep_orphans_example :
    jobs_held
      (sweep_orphans job_client test_server.doubles 100_000 one_minute
        (b "jobs")
        (b "jobs:processing")
        (1, 0)).1
    ≡ 1
unfolding sweep_orphans recover_members recover_value value_from_member claim_member u32_bytes
held-sweep_orphans_example =
    held-sweep_orphans job_client (b "jobs") (b "jobs:processing") job jobs_held
      job_client-IsHolding test_server.doubles 100_000 one_minute (1, 0) refl
