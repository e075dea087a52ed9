-- ===== src/Broker/Routes/Written.antt =====
-- How a registered subscription's names are written.
use ruststream_fred.Common.{
  ◌≡◌, refl, sym, arith, Bool, true, false, ◌||◌, List, [], ◌∷◌, Option, none, some,
}
use ruststream_fred.Common.Order.{◌==◌, bytes_ord}
use ruststream_fred.Common.Map.{Map, get}
use ruststream_fred.Server.Text.{Bytes}
use ruststream_fred.Envelope.Framing.{Framing}
use ruststream_fred.Broker.Routes.{
  classic, sharded, Route, stream, list, channel, same_framing, writes_like, Held, Routes, names_of,
  conflicts, conflict, record_names, Registration, taken, recorded, record_subscription,
  unless_taken, forget, held_route, route_of,
}
use ruststream_fred.Broker.Routes.Laws.{
  IsSound, route_of-lookup, same_key, taken_up, more, get-record_names,
}
use ruststream_fred.Broker.Routes.Registered.{record_names-IsSound, forget-record_names}

-- Whether a name is among these.
unfoldable pub is_among : Bytes → List Bytes → Bool
is_among name [] = false
is_among name (x ∷ xs) = x == name || is_among name xs

abbrev written_as : Route → Option Held → Bool
written_as route none = false
written_as route (some held) = writes_like held.route route

same_framing_self : (f : Framing) → same_framing f f ≡ true
same_framing_self Framing.own = refl
same_framing_self Framing.ruststream = refl
same_framing_self Framing.faststream = refl
same_framing_self Framing.noop = refl
same_framing_self Framing.framed_json = refl
same_framing_self Framing.framed_cbor = refl
same_framing_self Framing.framed_msgpack = refl
same_framing_self (Framing.unrouted x) = ground (arith, bytes_ord.cmp_self x)

writes_like_self : (r : Route) → writes_like r r ≡ true
unfolding writes_like
writes_like_self (stream f) = same_framing_self f
writes_like_self (list f) = same_framing_self f
writes_like_self (channel classic f) = same_framing_self f
writes_like_self (channel sharded f) = same_framing_self f

written-taken_up :
    (route : Route) (name x : Bytes) (o : Option Held)
    → written_as route o ≡ true
    → written_as route (taken_up route name x o) ≡ true
written-taken_up route name x none e = ground (arith, e)
written-taken_up route name x (some held) e = ground (arith, e)

written-more :
    (route : Route) (name : Bytes) (names : List Bytes) (o : Option Held)
    → written_as route o ≡ true
    → written_as route (more route name names o) ≡ true
unfolding more
written-more route name [] o e = e
written-more route name (x ∷ xs) o e =
    written-more route name xs _ (written-taken_up route name x o e)

-- The first holder gives a free name its route, and the others had it.
first_taken_up :
    (route : Route) (name x : Bytes) (o : Option Held)
    → (x == name) ≡ true
    → conflicts route o ≡ false
    → written_as route (taken_up route name x o) ≡ true
first_taken_up route name x none e free = ground (arith, e, writes_like_self route)
first_taken_up route name x (some held) e free = ground (arith, e, free)

other_taken_up :
    (route : Route) (name x : Bytes) (o : Option Held)
    → (x == name) ≡ false
    → taken_up route name x o ≡ o
other_taken_up route name x o e = rw e refl

named_written :
    (route : Route) (name : Bytes) (names : List Bytes) (o : Option Held)
    → is_among name names ≡ true
    → conflicts route o ≡ false
    → written_as route (more route name names o) ≡ true
unfolding more is_among
named_written route name [] o among free = ground (arith, among)
named_written route name (x ∷ xs) o among free = ground (
  arith,
  among,
  free,
  first_taken_up route name x o,
  other_taken_up route name x o,
  written-more route name xs (taken_up route name x o),
  named_written route name xs o,
)

others_left :
    (route : Route) (name : Bytes) (names : List Bytes) (o : Option Held)
    → is_among name names ≡ false
    → more route name names o ≡ o
unfolding more is_among
others_left route name [] o e = refl
others_left route name (x ∷ xs) o e =
    ground (arith, e, other_taken_up route name x o, others_left route name xs o)

written_route :
    (route : Route) (o : Option Held)
    → written_as route o ≡ true
    → writes_like (held_route o) route ≡ true
written_route route none e = ground (arith, e)
written_route route (some held) e = e

free_of_conflict :
    (route : Route) (table : Map Bytes Held) (names : List Bytes) (name : Bytes)
    → conflict route table names ≡ none
    → is_among name names ≡ true
    → conflicts route (get name table) ≡ false
unfolding conflict is_among
free_of_conflict route table [] name e among = ground (arith, among)
free_of_conflict route table (x ∷ xs) name e among =
    ground (arith, e, among, same_key x name table, free_of_conflict route table xs name)

-- A registration that is not refused, by the conflict that there was none of.
unrefused :
    (o : Option Bytes) (route : Route) (names added : List Bytes) (s s' : Routes)
    → unless_taken o route names s ≡ recorded added s'
    → (o ≡ none) × ((names ≡ added) × (record_names route names s ≡ s'))
unrefused (some name) route names added s s' e = ground (arith, e)
unrefused none route names added s s' e = ground (arith, e)

record_names_written :
    (route : Route) (names : List Bytes) (s : Routes) (name : Bytes)
    → IsSound s
    → conflict route s.table names ≡ none
    → is_among name names ≡ true
    → writes_like (route_of name (record_names route names s)) route ≡ true
record_names_written route names s name sound free among =
    rw
      (
        route_of-lookup name (record_names route names s)
            (record_names-IsSound route names s sound),
        get-record_names route names s name,
      )
      (written_route route _ (
        named_written route name names (get name s.table) among
          (free_of_conflict route s.table names name free among)))

-- After a registration in a sound table that is not refused, the subscription's name and its
-- dead-letter name are both written as the subscription reads.
pub route_of-record_subscription :
    (name : Bytes) (dead_letter : Option Bytes) (route : Route) (s s' : Routes) (added : List Bytes)
    → IsSound s
    → record_subscription name dead_letter route s ≡ recorded added s'
    → (written : Bytes) → is_among written (names_of name dead_letter) ≡ true
    → writes_like (route_of written s') route ≡ true
unfolding record_subscription
route_of-record_subscription name dead_letter route s s' added sound e written among =
    let (free, (same_names, same_state)) =
      unrefused (conflict route s.table (names_of name dead_letter)) route
        (names_of name dead_letter) added s s' e in
    rw (sym same_state)
      (record_names_written route (names_of name dead_letter) s written sound free among)

-- others
pub route_of-record_subscription_other :
    (name : Bytes) (dead_letter : Option Bytes) (route : Route) (s s' : Routes) (added : List Bytes)
    → IsSound s
    → record_subscription name dead_letter route s ≡ recorded added s'
    → (other : Bytes) → is_among other (names_of name dead_letter) ≡ false
    → route_of other s' ≡ route_of other s
unfolding record_subscription
route_of-record_subscription_other name dead_letter route s s' added sound e other away =
    let names = names_of name dead_letter in
    let (free, (same_names, same_state)) =
      unrefused (conflict route s.table names) route names added s s' e in
    rw
      (
        sym same_state,
        route_of-lookup other (record_names route names s)
            (record_names-IsSound route names s sound),
        route_of-lookup other s sound,
        get-record_names route names s other,
        others_left route other names (get other s.table) away,
      )
      refl

-- What a name is held with writes as the route does, or otherwise.
abbrev pub WritesAlike : Route → Option Held → Type 0
WritesAlike route none = Unit
WritesAlike route (some held) = writes_like held.route route ≡ true

abbrev pub WritesOtherwise : Route → Option Held → Type 0
WritesOtherwise route none = false ≡ true
WritesOtherwise route (some held) = writes_like held.route route ≡ false

unfoldable pub EachAlike : Route → Map Bytes Held → List Bytes → Type 0
EachAlike route table [] = Unit
EachAlike route table (x ∷ xs) = WritesAlike route (get x table) × EachAlike route table xs

-- A refusal names one of the names, held with a route that writes otherwise; a registration that
-- went through had none of those among its names.
abbrev pub IsDecided : Route → Map Bytes Held → List Bytes → Registration → Type 0
IsDecided route table names (taken x) =
    (is_among x names ≡ true) × WritesOtherwise route (get x table)
IsDecided route table names (recorded added s) = EachAlike route table names

in_conflict : (route : Route) (o : Option Held) → conflicts route o ≡ true → WritesOtherwise route o
in_conflict route none e = ground (arith, e)
in_conflict route (some held) e = ground (arith, e)

no_conflict : (route : Route) (o : Option Held) → conflicts route o ≡ false → WritesAlike route o
no_conflict route none e = tt
no_conflict route (some held) e = ground (arith, e)

conflict_found :
    (route : Route) (table : Map Bytes Held) (names : List Bytes) (x : Bytes)
    → conflict route table names ≡ some x
    → (is_among x names ≡ true) × (conflicts route (get x table) ≡ true)
unfolding conflict is_among
conflict_found route table [] x e = ground (arith, e)
conflict_found route table (y ∷ ys) x e =
    ground (arith, e, bytes_ord.cmp_self x, conflict_found route table ys x)

conflict_first :
    (route : Route) (table : Map Bytes Held) (name : Bytes) (names : List Bytes)
    → conflict route table (name ∷ names) ≡ none
    → (conflicts route (get name table) ≡ false) × (conflict route table names ≡ none)
unfolding conflict
conflict_first route table name names e = ground (arith, e)

each_alike :
    (route : Route) (table : Map Bytes Held) (names : List Bytes)
    → conflict route table names ≡ none
    → EachAlike route table names
unfolding EachAlike
each_alike route table [] e = tt
each_alike route table (x ∷ xs) e =
    let (free, rest) = conflict_first route table x xs e in
    (no_conflict route (get x table) free, each_alike route table xs rest)

decided :
    (route : Route) (names : List Bytes) (s : Routes) (o : Option Bytes)
    → conflict route s.table names ≡ o
    → IsDecided route s.table names (unless_taken o route names s)
decided route names s none e = each_alike route s.table names e
decided route names s (some x) e =
    let (among, found) = conflict_found route s.table names x e in
    (among, in_conflict route (get x s.table) found)

-- A registration is refused only for a name of its own, its subscription's or its dead-letter name,
-- that the table holds with a route that writes otherwise; and it goes through only where each of
-- its names is free, or held with a route that writes alike.
pub record_subscription-IsDecided :
    (name : Bytes) (dead_letter : Option Bytes) (route : Route) (s : Routes)
    → IsDecided route s.table
        (names_of name dead_letter)
        (record_subscription name dead_letter route s)
unfolding record_subscription
record_subscription-IsDecided name dead_letter route s =
    decided route (names_of name dead_letter) s _ refl

-- Dropping a registration that a sound table did not refuse leaves every name held as it was
-- before, by as many holders, also where the name and the dead-letter name are one.
pub forget-record_subscription :
    (name : Bytes) (dead_letter : Option Bytes) (route : Route) (s s' : Routes) (added : List Bytes)
    → IsSound s
    → record_subscription name dead_letter route s ≡ recorded added s'
    → (other : Bytes) → get other (forget added s').table ≡ get other s.table
unfolding record_subscription
forget-record_subscription name dead_letter route s s' added sound e other =
    let names = names_of name dead_letter in
    let (free, (same_names, same_state)) =
      unrefused (conflict route s.table names) route names added s s' e in
    rw (sym same_state, sym same_names) (forget-record_names route names s other sound)
