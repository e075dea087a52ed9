-- ===== src/Broker/Delay.antt =====
-- delay.rs: delayed retries, as members of a sorted set that sweeps move back to the stream. The
-- calls of the client, the clock and the retry header's name are parameters.
pub mod Laws
pub mod Sweeps
use ruststream_fred.Common.{
  ℕ, zero, suc, ◌+◌, ◌-◌, ◌%◌, ◌^◌, ◌&&◌, min, max, List, [], ◌∷◌, ◌++◌, Option, none, some, eqb,
  leb, length, drop, if◌then◌else◌,
}
use ruststream_fred.Server.Text.{Bytes}
use ruststream_fred.Server.Text.Decimal.{u64_max, i64_max, print, parse_u64}
use ruststream_fred.Server.Value.{Double, Doubles}
use ruststream_fred.Server.State.{Duration, as_millis}
use ruststream_fred.Broker.Calls.{Reply, replied, failed, and_then}
use ruststream_fred.Envelope.Wire.{◌>>=◌, range, from_be_bytes, u32_bytes}
use ruststream_fred.Envelope.Seal.{
  HeaderMaps, Sealed, sealed, refused, SealError, EntryFields, Envelope,
}
use ruststream_fred.Envelope.RustStream.{is_marked, framed, unframe_own, rust_stream}

-- `delay_millis` and `ttl_millis`
abbrev pub delay_millis : Duration → ℕ
delay_millis delay = min (as_millis delay) u64_max

abbrev pub ttl_millis : Duration → ℕ
ttl_millis ttl = max (min (as_millis ttl) i64_max) 1

abbrev pub value_of : Sealed Bytes → Bytes
value_of (sealed value) = value
value_of (refused e) = []

-- `member.get(4usize.checked_add(id_len)?..)?`
abbrev pub tail_from : ℕ → Bytes → Option Bytes
tail_from pos bytes = if leb pos (length bytes) then some (drop pos bytes) else none

module _ {H : Type 0} (m : HeaderMaps H) (retry_header : Bytes) where
  -- `encode_member`; the crate's own frame carries any message.
  unfoldable pub encode_member : Bytes → Bytes → H → Bytes
  encode_member id payload h =
      u32_bytes (min (length id) 4294967295) ++ (id ++ value_of ((rust_stream m).seal payload h []))

  abbrev pub or_whole : Bytes → Option (Bytes × H) → Bytes × H
  or_whole body none = (body, m.empty)
  or_whole body (some read) = read

  -- `decode_member`
  unfoldable pub decode_member : Bytes → Option (Bytes × H)
  decode_member member = do
    raw ← range 0 4 member
    body ← tail_from (4 + from_be_bytes 0 raw) member
    some (or_whole body (unframe_own m body))

  abbrev pub parsed_count : Option Bytes → Option ℕ
  parsed_count none = none
  parsed_count (some text) = parse_u64 text

  abbrev pub or_zero : Option ℕ → ℕ
  or_zero none = 0
  or_zero (some n) = n

  -- `next_retry_count`, a `u64`; past the greatest it starts again, as a release build does, where a
  -- debug build panics.
  unfoldable pub next_retry_count : H → ℕ
  next_retry_count h = (or_zero (parsed_count (m.get_str retry_header h)) + 1) % 2 ^ 64

  abbrev pub with_count : H → H
  with_count h = m.insert retry_header (print (next_retry_count h)) h

  abbrev pub scheduled_if : Sealed EntryFields → Double × Bytes → Sealed (Double × Bytes)
  scheduled_if (sealed fields) member = sealed member
  scheduled_if (refused e) member = refused e

  -- `DelayConfig::scheduled`, at `now` in epoch milliseconds
  unfoldable pub scheduled :
      Doubles → ℕ → Bytes → Bytes → H → Duration → Envelope H → Sealed (Double × Bytes)
  scheduled doubles now id payload h delay envelope =
      scheduled_if (envelope.seal_entry payload (with_count h)) (
        doubles.of_millis (min (now + delay_millis delay) u64_max),
        encode_member id payload (with_count h),
      )

  pub record Client (S : Type 0) : Type 0 where
    pub zadd : Bytes → Double → Bytes → S → Reply ℕ × S
    pub pexpire : Bytes → ℕ → S → Reply ℕ × S
    pub due : Bytes → Double → ℕ → S → Reply (List Bytes) × S
    pub zrem : Bytes → Bytes → S → Reply ℕ × S
    pub xadd : Bytes → EntryFields → S → Reply (Unit {0}) × S

  module _ {S : Type 0} (c : Client S) where
    abbrev pub fields_of : Envelope H → Option (Bytes × H) → Option EntryFields
    fields_of envelope none = none
    fields_of envelope (some (payload, h)) = elim (envelope.seal_entry payload h) [
      | sealed fields ↦ some fields
      | refused e ↦ none
    ]

    -- A due member: one that no longer decodes, or does not fit the stream's envelope, stays.
    abbrev pub move_back : Bytes → Bytes → Bytes → Option EntryFields → S → Reply (Unit {0}) × S
    move_back zset stream member none s = (replied tt, s)
    move_back zset stream member (some fields) s =
        and_then (c.zrem zset member s)
          (λ removed t. if eqb removed 1 then c.xadd stream fields t else (replied tt, t))

    -- The loop of `sweep_due`.
    unfoldable pub sweep_members :
        Bytes → Bytes → Envelope H → List Bytes → S → Reply (Unit {0}) × S
    sweep_members zset stream envelope [] s = (replied tt, s)
    sweep_members zset stream envelope (member ∷ members) s =
        and_then (move_back zset stream member (fields_of envelope (decode_member member)) s)
          (λ done t. sweep_members zset stream envelope members t)

    -- `DelayConfig::sweep_due`
    unfoldable pub sweep_due : Doubles → ℕ → Bytes → Bytes → Envelope H → S → Reply (Unit {0}) × S
    sweep_due doubles now zset stream envelope s =
        and_then (c.due zset (doubles.of_millis now) 128 s)
          (λ members t. sweep_members zset stream envelope members t)

    abbrev pub expire_queue : Bytes → Option Duration → S → Reply (Unit {0}) × S
    expire_queue zset none s = (replied tt, s)
    expire_queue zset (some ttl) s =
        and_then (c.pexpire zset (ttl_millis ttl) s) (λ n t. (replied tt, t))

    abbrev pub queued : Bytes → Option Duration → Sealed (Double × Bytes) → S → Reply (Unit {0}) × S
    queued zset ttl (refused e) s = (failed, s)
    queued zset ttl (sealed (score, member)) s =
        and_then (c.zadd zset score member s) (λ added t. expire_queue zset ttl t)

    -- `DelayConfig::schedule`
    unfoldable pub schedule :
        Doubles
        → ℕ
        → Bytes
        → Option Duration
        → Bytes
        → Bytes
        → H
        → Duration
        → Envelope H
        → S
        → Reply (Unit {0}) × S
    schedule doubles now zset ttl id payload h delay envelope s =
        queued zset ttl (scheduled doubles now id payload h delay envelope) s
