-- ===== src/Server/Tests.antt =====
-- A server with a stream, a group that reads it, a list and a linked set, and commands sent to it:
-- the concrete inputs of the children.
pub mod Counted
pub mod Collected
pub mod Streamed
pub mod Grouped
pub mod Listed
pub mod Globbed
pub mod Worlds
use ruststream_fred.Common.{
  ℕ, ◌*◌, Bool, true, false, eqb, ltb, ◌+◌, List, [], ◌∷◌, none, some, refl,
}
use ruststream_fred.Common.Int.{ℤ, pos, negsuc}
use ruststream_fred.Server.Text.{Bytes, b}
use ruststream_fred.Server.Value.{Value, bytes, Doubles}
use ruststream_fred.Server.State.{
  Server, State, Stream, Group, Pending, Entry, Data, Link, LinkKind, Reader, StreamReader,
  stream_reader, list_reader, delay, stream, list,
}
use ruststream_fred.Server.Exec.{Args, Context}
use ruststream_fred.Server.Counts.Balance.{IsCounted, HasSortedHeld}

-- Doubles that stand for the whole numbers they are the codes of.
abbrev whole_doubles : Doubles
whole_doubles = record {
  is_infinite = λ d. false;
  is_nan = λ d. false;
  is_positive = λ d. ltb 0 d;
  is_integral = λ d. true;
  to_i64 = λ d. pos d;
  of_i64 = λ z. elim z [ pos n ↦ n | negsuc n ↦ 0 ];
  display = λ d. [];
  parse = λ x. none;
  equal = eqb;
  less = ltb;
  total_less = ltb;
  plus = λ x y. x + y;
  of_millis = λ n. n;
  to_millis = λ d. d;
  infinity = 1_000_000;
  neg_infinity = 0;
}

abbrev pub test_server : Server
test_server = record {
  now = 9_000_000;
  started = 1_000_000;
  epoch_ms = 100;
  clustered = false;
  has_coordinator = true;
  doubles = whole_doubles;
  keyslot = λ key. 0;
}

abbrev pub test_group : Group
test_group = record {
  cursor = (5, 0);
  pending = ((5, 0), record { consumer = b "alice"; at = 2_000_000; count = 1 }) ∷ [];
  consumers = [];
}

abbrev pub test_stream : Stream
test_stream = record {
  entries =
      ((5, 0), (b "body", b "a") ∷ [])
      ∷ ((6, 0), (b "body", b "b") ∷ [])
      ∷ ((7, 1), (b "body", b "c") ∷ [])
      ∷ [];
  last = (7, 1);
  groups = (b "workers", test_group) ∷ [];
}

abbrev test_reader : StreamReader
test_reader = record {
  key = b "orders";
  group = b "workers";
  consumer = b "alice";
  fresh = true;
  claim = none;
  delay = none;
}

-- Two entries of the stream, one element of the list and one member of the set are owed; one
-- delivery has been released and one is handed out.
abbrev pub test_state : State
test_state = record {
  keys =
      (b "jobs", record { value = list (b "x" ∷ b "y" ∷ b "x" ∷ []); expires = none })
      ∷ (b "orders", record { value = stream test_stream; expires = none })
      ∷ [];
  readers = (0, stream_reader test_reader) ∷ (1, list_reader (b "jobs") none) ∷ [];
  stream_owed = ((b "orders", b "workers"), ((6, 0), tt) ∷ ((7, 1), tt) ∷ []) ∷ [];
  claim_due = [];
  list_owed = (b "jobs", 1) ∷ [];
  readd_holds = [];
  links =
      (b "later", record { target = b "orders"; kind = delay; due = []; held = (b "m", tt) ∷ [] })
      ∷ [];
  writes = [];
  enqueued = 6;
  consumed = 1;
  timers = [];
}

pub test_state-IsCounted : IsCounted 1 test_state
test_state-IsCounted = record {
  owed_sorted = (tt, tt);
  sets_sorted = (((refl, tt), (tt, tt)), tt);
  lists_sorted = (tt, tt);
  holds_sorted = tt;
  links_sorted = (tt, tt);
  held_sorted = (record { sorted = (tt, tt) }, tt);
  balance = refl;
}

abbrev values : List Bytes → List Value
values [] = []
values (x ∷ xs) = bytes x ∷ values xs

-- A command's context: its arguments as bytes.
abbrev pub with_args : List Bytes → Context
with_args xs = record { state = test_state; args = record { command = b "X"; rest = values xs } }
