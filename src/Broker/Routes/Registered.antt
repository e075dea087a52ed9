-- ===== src/Broker/Routes/Registered.antt =====
-- What a registration makes of the table, and its drop.
use ruststream_fred.Common.{◌≡◌, refl, ap, ◌∙◌, arith, false, List, [], ◌∷◌, Option, none, some}
use ruststream_fred.Common.Order.{bytes_ord}
use ruststream_fred.Common.Map.{get}
use ruststream_fred.Server.Text.{Bytes}
use ruststream_fred.Broker.Routes.{
  Route, Held, Routes, names_of, conflict, record_name, record_names, Registration, taken, recorded,
  record_subscription, unless_taken, forget,
}
use ruststream_fred.Broker.Routes.Laws.{
  IsSound, vain, same_key, taken_up, more, let_go, less, get-record_name, get-record_names,
  get-one_less, get-forget,
}

-- The state after a registration: a refused one changes nothing.
abbrev pub after : Routes → Registration → Routes
after s (taken name) = s
after s (recorded names s') = s'

record_name-IsSound :
    (route : Route) (x : Bytes) (s : Routes) → IsSound s → IsSound (record_name route x s)
record_name-IsSound route x s sound = record {
  flagged = λ name. ground (
    arith,
    same_key x name s.table,
    get-record_name route x s name,
    sound.flagged name,
    sound.flagged x,
  );
  held = λ name. ground (arith, get-record_name route x s name, sound.held name);
}

pub record_names-IsSound :
    (route : Route) (names : List Bytes) (s : Routes)
    → IsSound s
    → IsSound (record_names route names s)
unfolding record_names
record_names-IsSound route [] s sound = sound
record_names-IsSound route (x ∷ xs) s sound =
    record_names-IsSound route xs (record_name route x s) (record_name-IsSound route x s sound)

unless_taken-IsSound :
    (o : Option Bytes) (route : Route) (names : List Bytes) (s : Routes)
    → IsSound s
    → IsSound (after s (unless_taken o route names s))
unless_taken-IsSound (some name) route names s sound = sound
unless_taken-IsSound none route names s sound = record_names-IsSound route names s sound

-- A registration, refused or not, keeps the table sound: each name has a holder, and no foreign
-- route is held while the flag is down.
pub record_subscription-IsSound :
    (name : Bytes) (dead_letter : Option Bytes) (route : Route) (s : Routes)
    → IsSound s
    → IsSound (after s (record_subscription name dead_letter route s))
unfolding record_subscription
record_subscription-IsSound name dead_letter route s sound =
    unless_taken-IsSound (conflict route s.table (names_of name dead_letter)) route _ s sound

-- forget
pub forget-IsSound : (names : List Bytes) (s : Routes) → IsSound s → IsSound (forget names s)
unfolding forget
forget-IsSound [] s sound = sound
forget-IsSound (x ∷ xs) s sound =
    let found = λ (name : Bytes). get-one_less x (get x s.table) s.table name refl in
    forget-IsSound xs _ (record {
      flagged = λ name. ground (arith, found name, sound.flagged name);
      held = λ name. ground (arith, found name, sound.held name);
    })

vain-more :
    (route : Route) (name : Bytes) (names : List Bytes) (o : Option Held)
    → vain o ≡ false
    → vain (more route name names o) ≡ false
unfolding more
vain-more route name [] o e = e
vain-more route name (x ∷ xs) o e =
    vain-more route name xs (taken_up route name x o) (ground (arith, e))

taken_up_swap :
    (route : Route) (name x y : Bytes) (o : Option Held)
    → taken_up route name y (taken_up route name x o)
      ≡ taken_up route name x (taken_up route name y o)
taken_up_swap route name x y o = ground arith

more-taken_up :
    (route : Route) (name x : Bytes) (names : List Bytes) (o : Option Held)
    → more route name names (taken_up route name x o)
      ≡ taken_up route name x (more route name names o)
unfolding more
more-taken_up route name x [] o = refl
more-taken_up route name x (y ∷ ys) o =
    ap (more route name ys) (taken_up_swap route name x y o)
    ∙ more-taken_up route name x ys (taken_up route name y o)

let_go-taken_up :
    (route : Route) (name x : Bytes) (o : Option Held)
    → vain o ≡ false
    → let_go name x (taken_up route name x o) ≡ o
let_go-taken_up route name x none e = ground (arith, e)
let_go-taken_up route name x (some held) e = ground (arith, e)

less-more :
    (route : Route) (name : Bytes) (names : List Bytes) (o : Option Held)
    → vain o ≡ false
    → less name names (more route name names o) ≡ o
unfolding more less
less-more route name [] o e = refl
less-more route name (x ∷ xs) o e =
    ap (λ p. less name xs (let_go name x p)) (more-taken_up route name x xs o)
    ∙ ap (less name xs) (let_go-taken_up route name x _ (vain-more route name xs o e))
    ∙ less-more route name xs o e

-- forget and record
pub forget-record_names :
    (route : Route) (names : List Bytes) (s : Routes) (name : Bytes)
    → IsSound s
    → get name (forget names (record_names route names s)).table ≡ get name s.table
forget-record_names route names s name sound =
    get-forget names (record_names route names s) name
    ∙ ap (less name names) (get-record_names route names s name)
    ∙ less-more route name names (get name s.table) (sound.held name)
