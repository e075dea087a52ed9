-- ===== src/Broker/Routes.antt =====
-- route.rs: how each name that a subscription reads, or dead-letters to, is written.
pub mod Laws
pub mod Registered
pub mod Written
use ruststream_fred.Common.{
  ℕ, ◌+◌, ◌-◌, Bool, true, false, ◌&&◌, ◌||◌, not, List, [], ◌∷◌, Option, none, some, eqb,
  if◌then◌else◌,
}
use ruststream_fred.Common.Order.{◌==◌, bytes_ord}
use ruststream_fred.Common.Map.{Map, get, insert, remove}
use ruststream_fred.Server.Text.{Bytes}
use ruststream_fred.Envelope.Framing.{Framing}

-- `enum PubSubMode`
pub data PubSubMode : Type 0 where
  classic : PubSubMode
  sharded : PubSubMode

-- `enum Route`
pub data Route : Type 0 where
  stream : Framing → Route
  list : Framing → Route
  channel : PubSubMode → Framing → Route

-- The derived equality of `PubSubMode` and of `Framing`.
abbrev pub same_mode : PubSubMode → PubSubMode → Bool
same_mode classic classic = true
same_mode sharded sharded = true
same_mode _ _ = false

abbrev pub same_framing : Framing → Framing → Bool
same_framing Framing.own Framing.own = true
same_framing Framing.ruststream Framing.ruststream = true
same_framing Framing.faststream Framing.faststream = true
same_framing Framing.noop Framing.noop = true
same_framing Framing.framed_json Framing.framed_json = true
same_framing Framing.framed_cbor Framing.framed_cbor = true
same_framing Framing.framed_msgpack Framing.framed_msgpack = true
same_framing (Framing.unrouted x) (Framing.unrouted y) = x == y
same_framing _ _ = false

-- `Route::writes_like`
unfoldable pub writes_like : Route → Route → Bool
writes_like (stream x) (stream y) = same_framing x y
writes_like (list x) (list y) = same_framing x y
writes_like (channel m x) (channel n y) = same_mode m n && same_framing x y
writes_like _ _ = false

-- `Route::STREAM`
abbrev pub stream_route : Route
stream_route = stream Framing.own

-- `Route::foreign`
abbrev pub is_foreign : Route → Bool
is_foreign (stream Framing.own) = false
is_foreign _ = true

-- `struct Held`
pub record Held : Type 0 where
  pub route : Route
  pub holders : ℕ

-- `struct Routes`
pub record Routes : Type 0 where
  pub table : Map Bytes Held
  pub foreign : Bool

-- The names that a subscription writes.
abbrev pub names_of : Bytes → Option Bytes → List Bytes
names_of name none = name ∷ []
names_of name (some dead_letter) = name ∷ dead_letter ∷ []

abbrev pub conflicts : Route → Option Held → Bool
conflicts route none = false
conflicts route (some held) = not (writes_like held.route route)

-- The first of the names that the table holds with another route.
unfoldable pub conflict : Route → Map Bytes Held → List Bytes → Option Bytes
conflict route table [] = none
conflict route table (name ∷ names) =
    let rest = conflict route table names in
    if conflicts route (get name table) then some name else rest

-- One holder more of a name, whose route stays if it has one.
abbrev pub held_more : Route → Option Held → Held
held_more route none = record { route = route; holders = 1 }
held_more route (some held) = record held { holders = held.holders + 1 }

abbrev pub turns_foreign : Route → Option Held → Bool
turns_foreign route none = is_foreign route
turns_foreign route (some held) = false

abbrev pub record_name : Route → Bytes → Routes → Routes
record_name route name s = record {
  table = insert name (held_more route (get name s.table)) s.table;
  foreign = s.foreign || turns_foreign route (get name s.table);
}

unfoldable pub record_names : Route → List Bytes → Routes → Routes
record_names route [] s = s
record_names route (name ∷ names) s = record_names route names (record_name route name s)

-- What a subscription's registration comes to: its refusal names the name that is taken.
pub data Registration : Type 0 where
  taken : Bytes → Registration
  recorded : List Bytes → Routes → Registration

abbrev pub unless_taken : Option Bytes → Route → List Bytes → Routes → Registration
unless_taken (some name) route names s = taken name
unless_taken none route names s = recorded names (record_names route names s)

-- `Routes::record_subscription`
unfoldable pub record_subscription : Bytes → Option Bytes → Route → Routes → Registration
record_subscription name dead_letter route s =
    let names = names_of name dead_letter in
    unless_taken (conflict route s.table names) route names s

abbrev pub one_less : Bytes → Option Held → Map Bytes Held → Map Bytes Held
one_less name none table = table
one_less name (some held) table =
    if eqb (held.holders - 1) 0
    then remove name table
    else insert name (record held { holders = held.holders - 1 }) table

-- `Routes::forget`, which the drop of a `Recorded` that was not kept calls.
unfoldable pub forget : List Bytes → Routes → Routes
forget [] s = s
forget (name ∷ names) s =
    forget names (record s { table = one_less name (get name s.table) s.table })

abbrev pub held_route : Option Held → Route
held_route none = stream_route
held_route (some held) = held.route

-- `Routes::route`
unfoldable pub route_of : Bytes → Routes → Route
route_of name s = if not s.foreign then stream_route else held_route (get name s.table)
