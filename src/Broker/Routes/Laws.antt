-- ===== src/Broker/Routes/Laws.antt =====
-- The table of routes under registrations and their drops.
use ruststream_fred.Common.{
  ◌-◌, ◌≡◌, refl, ap, ◌∙◌, arith, Bool, true, false, ◌&&◌, not, List, [], ◌∷◌, Option, none, some,
  eqb, if◌then◌else◌,
}
use ruststream_fred.Common.Order.{◌==◌, bytes_ord}
use ruststream_fred.Common.Map.{Map, get, get-insert, get-remove}
use ruststream_fred.Server.Text.{Bytes}
use ruststream_fred.Envelope.Framing.{Framing}
use ruststream_fred.Broker.Routes.{
  Route, stream, list, channel, stream_route, is_foreign, Held, Routes, held_more, record_name,
  record_names, one_less, forget, held_route, route_of,
}

-- Whether a name is held with a route that is foreign, or by no holder.
abbrev pub foreign_held : Option Held → Bool
foreign_held none = false
foreign_held (some held) = is_foreign held.route

abbrev pub vain : Option Held → Bool
vain none = false
vain (some held) = eqb held.holders 0

-- While no foreign route was recorded every held one is the default, and each has a holder.
pub record IsSound (s : Routes) : Type 0 where
  pub flagged : (name : Bytes) → (foreign_held (get name s.table) && not s.foreign) ≡ false
  pub held : (name : Bytes) → vain (get name s.table) ≡ false

default_of : (r : Route) → is_foreign r ≡ false → r ≡ stream_route
default_of (stream Framing.own) e = refl
default_of (stream Framing.ruststream) e = ground (arith, e)
default_of (stream Framing.faststream) e = ground (arith, e)
default_of (stream Framing.noop) e = ground (arith, e)
default_of (stream Framing.framed_json) e = ground (arith, e)
default_of (stream Framing.framed_cbor) e = ground (arith, e)
default_of (stream Framing.framed_msgpack) e = ground (arith, e)
default_of (stream (Framing.unrouted x)) e = ground (arith, e)
default_of (list f) e = ground (arith, e)
default_of (channel m f) e = ground (arith, e)

default_route : (o : Option Held) → foreign_held o ≡ false → held_route o ≡ stream_route
default_route none e = refl
default_route (some h) e = default_of h.route e

-- In a sound table, one where each name has a holder and no foreign route is held while the flag is
-- down, the lookup that skips the table while the flag is down answers what the table says, and the
-- default stream for a name it does not hold.
pub route_of-lookup :
    (name : Bytes) (s : Routes) → IsSound s → route_of name s ≡ held_route (get name s.table)
unfolding route_of
route_of-lookup name s sound = ground (arith, sound.flagged name, default_route (get name s.table))

-- A name as it is found under another's.
pub same_key :
    (x name : Bytes) (table : Map Bytes Held) → (x == name) ≡ true → get x table ≡ get name table
same_key x name table e = ap (λ k. get k table) (bytes_ord.eq_of_cmp x name (ground (arith, e)))

-- What the names of a registration, and then of its drop, make of what one name is held by.
abbrev pub taken_up : Route → Bytes → Bytes → Option Held → Option Held
taken_up route name x o = if x == name then some (held_more route o) else o

unfoldable pub more : Route → Bytes → List Bytes → Option Held → Option Held
more route name [] o = o
more route name (x ∷ xs) o = more route name xs (taken_up route name x o)

pub get-record_name :
    (route : Route) (x : Bytes) (s : Routes) (name : Bytes)
    → get name (record_name route x s).table ≡ taken_up route name x (get name s.table)
get-record_name route x s name =
    ground
      (arith, same_key x name s.table, get-insert x name (held_more route (get x s.table)) s.table)

pub get-record_names :
    (route : Route) (names : List Bytes) (s : Routes) (name : Bytes)
    → get name (record_names route names s).table ≡ more route name names (get name s.table)
unfolding record_names more
get-record_names route [] s name = refl
get-record_names route (x ∷ xs) s name =
    get-record_names route xs (record_name route x s) name
    ∙ ap (more route name xs) (get-record_name route x s name)

abbrev pub less_one : Option Held → Option Held
less_one none = none
less_one (some held) =
    if eqb (held.holders - 1) 0 then none else some (record held { holders = held.holders - 1 })

abbrev pub let_go : Bytes → Bytes → Option Held → Option Held
let_go name x o = if x == name then less_one o else o

unfoldable pub less : Bytes → List Bytes → Option Held → Option Held
less name [] o = o
less name (x ∷ xs) o = less name xs (let_go name x o)

pub get-one_less :
    (x : Bytes) (o : Option Held) (table : Map Bytes Held) (name : Bytes)
    → get x table ≡ o
    → get name (one_less x o table) ≡ let_go name x (get name table)
get-one_less x none table name e = ground (arith, e, same_key x name table)
get-one_less x (some held) table name e = ground (
  arith,
  e,
  same_key x name table,
  get-remove x name table,
  get-insert x name (record held { holders = held.holders - 1 }) table,
)

pub get-forget :
    (names : List Bytes) (s : Routes) (name : Bytes)
    → get name (forget names s).table ≡ less name names (get name s.table)
unfolding forget less
get-forget [] s name = refl
get-forget (x ∷ xs) s name =
    get-forget xs (record s { table = one_less x (get x s.table) s.table }) name
    ∙ ap (less name xs) (get-one_less x (get x s.table) s.table name refl)
