-- ===== src/Broker/Tests/Delays.antt =====
-- A delayed retry queued and read back, and a sweep on a client that counts.
use ruststream_fred.Common.{
  ℕ, zero, suc, ◌+◌, ◌≡◌, refl, sym, ap, arith, false, [], ◌∷◌, some, eqb, if◌then◌else◌,
}
use ruststream_fred.Server.Text.{Bytes, b}
use ruststream_fred.Server.Text.Decimal.{print, parse_u64}
use ruststream_fred.Server.Tests.{test_server}
use ruststream_fred.Envelope.Wire.{u32_bytes, range}
use ruststream_fred.Envelope.RustStream.{
  rust_stream, seal, seal_entry, header_fields, framed, header_bytes, len_prefix, is_marked,
  unframe_own,
}
use ruststream_fred.Envelope.Tests.{TestHeaders, test_headers, test_headers-HeaderMapLaws}
use ruststream_fred.Broker.Calls.{Reply, replied, failed}
use ruststream_fred.Broker.Delay.{
  encode_member, decode_member, scheduled, next_retry_count, with_count, Client, sweep_members,
}
use ruststream_fred.Broker.Delay.Laws.{decode_member-scheduled}
use ruststream_fred.Broker.Delay.Sweeps.{IsCounting, total-sweep_members}

abbrev trace : Bytes
trace = b "trace"

abbrev no_headers : TestHeaders
no_headers = []

abbrev first_retry : Bytes
first_retry =
    encode_member test_headers trace (b "1-0") (b "{}") (with_count test_headers trace no_headers)

-- A message that was retried nine times.
abbrev nine_retries : TestHeaders
nine_retries = (false, b "9") ∷ []

abbrev tenth_retry : Bytes
tenth_retry =
    encode_member test_headers trace (b "1-0") (b "{}") (with_count test_headers trace nine_retries)

decode_member-scheduled_example :
    decode_member test_headers trace tenth_retry
    ≡ some (b "{}", (false, b "9") ∷ (false, b "10") ∷ [])
unfolding scheduled seal_entry encode_member seal framed header_bytes len_prefix u32_bytes
    next_retry_count print parse_u64 is_marked
decode_member-scheduled_example =
    decode_member-scheduled test_headers test_headers-HeaderMapLaws trace test_server.doubles 100
      (b "1-0") (b "{}") nine_retries 9 5_000_000 (rust_stream test_headers) 105 tenth_retry refl
      (omega arith) refl (omega arith)
      ((omega arith, (omega arith, (omega arith, (omega arith, tt)))), omega arith) (omega arith)

abbrev one_taken : ℕ × ℕ → Reply ℕ × (ℕ × ℕ)
one_taken (zero, entries) = (replied 0, (0, entries))
one_taken (suc queued, entries) = (replied 1, (queued, entries))

-- A queue and a stream of which only the sizes are known.
abbrev counting : Client test_headers trace (ℕ × ℕ)
counting = record {
  zadd = λ zset score member s. (replied 1, (s.0 + 1, s.1));
  pexpire = λ zset ttl s. (replied 1, s);
  due = λ zset max count s. (replied (first_retry ∷ []), s);
  zrem = λ zset member s. one_taken s;
  xadd = λ stream fields s. (replied tt, (s.0, s.1 + 1));
}

abbrev total : ℕ × ℕ → ℕ
total (queued, entries) = queued + entries

abbrev answered : Reply ℕ → ℕ
answered (replied n) = n
answered failed = 0

taken_total :
    (n : ℕ) (s t : ℕ × ℕ)
    → one_taken s ≡ (replied n, t)
    → (if eqb n 1 then suc (total t) else total t) ≡ total s
taken_total n (zero, entries) t e =
    let n_is : 0 ≡ n = ap (λ (p : Reply ℕ × (ℕ × ℕ)). answered p.0) e in
    let t_is : (0, entries) ≡ t = ap (λ (p : Reply ℕ × (ℕ × ℕ)). p.1) e in
    rw (sym n_is, sym t_is) refl
taken_total n (suc queued, entries) t e =
    let n_is : 1 ≡ n = ap (λ (p : Reply ℕ × (ℕ × ℕ)). answered p.0) e in
    let t_is : (queued, entries) ≡ t = ap (λ (p : Reply ℕ × (ℕ × ℕ)). p.1) e in
    rw (sym n_is, sym t_is) (omega arith)

added_total :
    (s t : ℕ × ℕ) (u : Unit {0}) → counting.xadd [] [] s ≡ (replied u, t) → total t ≡ suc (total s)
added_total (queued, entries) t u e =
    let t_is : (queued, entries + 1) ≡ t = ap (λ (p : Reply (Unit {0}) × (ℕ × ℕ)). p.1) e in
    rw (sym t_is) (omega arith)

counting-IsCounting : IsCounting test_headers trace counting total
counting-IsCounting = record {
  listed = λ zset max count s. refl;
  removed = λ zset member n s t e. taken_total n s t e;
  added = λ stream fields u s t e. added_total s t u e;
}

total-sweep_members_example :
    total
      (sweep_members test_headers trace counting
        (b "delays")
        (b "orders")
        (rust_stream test_headers)
        (first_retry ∷ [])
        (1, 0)).1
    ≡ 1
unfolding sweep_members decode_member range unframe_own encode_member seal framed header_bytes
    len_prefix u32_bytes is_marked seal_entry next_retry_count print header_fields
total-sweep_members_example =
    total-sweep_members test_headers trace counting total counting-IsCounting (b "delays")
      (b "orders") (rust_stream test_headers) (first_retry ∷ []) (1, 0) refl
