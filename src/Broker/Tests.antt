-- ===== src/Broker/Tests.antt =====
-- A table of routes, and registrations in it.
pub mod Delays
pub mod Recoveries
pub mod Claimed
use ruststream_fred.Common.{◌≡◌, refl, arith, true, [], ◌∷◌, none, some}
use ruststream_fred.Common.Order.{bytes_ord}
use ruststream_fred.Common.Map.{get, insert}
use ruststream_fred.Server.Text.{b}
use ruststream_fred.Envelope.Framing.{Framing}
use ruststream_fred.Broker.Routes.{
  Route, stream, list, Routes, conflict, names_of, record_names, taken, record_subscription, forget,
  held_route, route_of, writes_like,
}
use ruststream_fred.Broker.Routes.Laws.{IsSound, route_of-lookup}
use ruststream_fred.Broker.Routes.Registered.{after, record_subscription-IsSound}
use ruststream_fred.Broker.Routes.Written.{
  is_among, route_of-record_subscription, record_subscription-IsDecided, IsDecided,
  forget-record_subscription,
}

abbrev job_list : Route
job_list = list Framing.own

-- One list, read by a subscription.
abbrev jobs_read : Routes
jobs_read = record {
  table = (b "jobs", record { route = job_list; holders = 1 }) ∷ [];
  foreign = true;
}

jobs_read-IsSound : IsSound jobs_read
unfolding get
jobs_read-IsSound = record { flagged = λ name. ground arith; held = λ name. ground arith }

route_of-lookup_example :
    route_of (b "jobs") jobs_read ≡ held_route (get (b "jobs") jobs_read.table)
route_of-lookup_example = route_of-lookup (b "jobs") jobs_read jobs_read-IsSound

record_subscription-IsSound_example :
    IsSound (after jobs_read (record_subscription (b "mail") (some (b "dead")) job_list jobs_read))
record_subscription-IsSound_example =
    record_subscription-IsSound (b "mail") (some (b "dead")) job_list jobs_read jobs_read-IsSound

abbrev both_read : Routes
both_read = record {
  table =
      (b "jobs", record { route = job_list; holders = 2 })
      ∷ (b "mail", record { route = job_list; holders = 1 })
      ∷ [];
  foreign = true;
}

route_of-record_subscription_example : writes_like (route_of (b "jobs") both_read) job_list ≡ true
unfolding record_subscription record_names conflict insert is_among get writes_like
route_of-record_subscription_example =
    route_of-record_subscription (b "mail") (some (b "jobs")) job_list jobs_read both_read
      (b "mail" ∷ b "jobs" ∷ []) jobs_read-IsSound refl (b "jobs") refl

forget-record_subscription_example :
    get (b "jobs") (forget (b "mail" ∷ b "jobs" ∷ []) both_read).table
    ≡ get (b "jobs") jobs_read.table
unfolding record_subscription record_names conflict insert get writes_like
forget-record_subscription_example =
    forget-record_subscription (b "mail") (some (b "jobs")) job_list jobs_read both_read
      (b "mail" ∷ b "jobs" ∷ []) jobs_read-IsSound refl (b "jobs")

record_subscription-IsDecided_example :
    IsDecided
      (stream Framing.own)
      jobs_read.table
      (names_of (b "jobs") none)
      (record_subscription (b "jobs") none (stream Framing.own) jobs_read)
record_subscription-IsDecided_example =
    record_subscription-IsDecided (b "jobs") none (stream Framing.own) jobs_read

-- A list may not be read as a stream.
jobs_refused : record_subscription (b "jobs") none (stream Framing.own) jobs_read ≡ taken (b "jobs")
unfolding record_subscription conflict get writes_like
jobs_refused = refl
