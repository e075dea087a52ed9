-- ===== src/Lib.antt =====
-- The in-process Redis of ruststream-fred: the server that the crate's tests and its in-process
-- broker run against, in crates/ruststream-fred/src/in_process; and of the broker beside it, the
-- envelopes that messages travel in, the table of routes, delayed retries, and the windows in which
-- pipelined subscriptions settle. A command arrives as a name and a
-- list of values; it reads its arguments, changes the keyspace, and tells a coordinator of every
-- delivery that it owes, hands out or releases, so that a test knows when all work is done.
--
-- What each file models (paths below crates/ruststream-fred/src/in_process):
--   Server/Args.antt           args.rs: arguments, their refusals, replies
--   Server/State.antt          mod.rs: the state and the clock; the calls on the coordinator
--   Server/Keyspace.antt       keyspace.rs: values, lazy expiry, the accessors of `typed!`
--   Server/Keys.antt           keyspace.rs: `delete`, `expire`, and what the next one needs
--   Server/KeyCommands.antt    keyspace.rs: `keys_and_strings` and `set`
--   Server/Collections.antt    keyspace.rs: `hashes` and `sets`
--   Server/Counts.antt         mod.rs: readers, counts of deliveries, the write log, publishing
--   Server/Links.antt          mod.rs: linked sets; keyspace.rs: `prune_link`
--   Server/Lists.antt          lists.rs: ends, ranges, removal
--   Server/ListCommands.antt   lists.rs: `lists`, `lmove`
--   Server/ListReads.antt      lists.rs: `list_reads`
--   Server/Ids.antt            streams.rs: ids
--   Server/Streams.antt        streams.rs: trims, new ids, appends, ranges of entries
--   Server/StreamCommands.antt streams.rs: `xadd`, `xlen`, `xrange`, `xdel`, `xtrim`
--   Server/Groups.antt         streams.rs: deliveries, claims, acknowledgements, hand-outs, timers
--   Server/GroupCommands.antt  streams.rs: `xack`, `xgroup`
--   Server/GroupReads.antt     streams.rs: `xreadgroup`, `read_group`
--   Server/AutoClaim.antt      streams.rs: `xautoclaim`
--   Server/Glob.antt           glob.rs: the patterns of `PSUBSCRIBE`
--   Server/ServerCommands.antt keyspace.rs: `server_commands`
--   Server/SortedSets.antt     keyspace.rs: scores and their ranges; mod.rs: `arm_link`
--   Server/SortedSetCommands.antt keyspace.rs: `sorted_sets`, `zadd`, `zrangebyscore`
--   Server/Pendings.antt       streams.rs: `xpending`
--   Server/Slots.antt          keyspace.rs: the keys of a command, the slot checks
--   Server/Dispatch.antt       keyspace.rs: `dispatch`; mod.rs: `run`, `transaction` of `State`
--   Server/World.antt          mod.rs: the calls on `Server`
--   Server/Reach.antt          the runs of the server: its calls in any order
-- The envelopes, the broker and the pipelines (paths below crates/ruststream-fred/src):
--   Envelope/Wire.antt         envelope/rust_stream.rs, fast_stream.rs: slices and numbers
--   Envelope/Seal.antt         envelope/mod.rs: the trait `Envelope`, header maps
--   Envelope/RustStream.antt   envelope/rust_stream.rs: the crate's own frame
--   Envelope/FastStream.antt   envelope/fast_stream.rs: faststream's frame
--   Envelope/NoOp.antt         envelope/noop.rs
--   Envelope/Body.antt         envelope/body.rs: a delivery's payload and headers
--   Envelope/Framing.antt      envelope/framing.rs
--   Broker/Routes.antt         route.rs: the route table
--   Broker/Delay.antt          delay.rs: delayed retries and their sweeps
--   Broker/Recovery.antt       recovery.rs: the watchdog of a reliable list
--   Broker/Claims.antt         claim.rs: the replies of claiming reads
--   Broker/Calls.antt          what the broker's calls of its client answer
--   Pipeline/Slots.antt        pipeline/window.rs: slots, segments, generations
--   Pipeline/Window.antt       pipeline/window.rs: settles, commits, flushes
--   Pipeline/Rounds.antt       pipeline/rounds.rs
-- Server/Text.antt and Server/Text/Decimal.antt hold what the code uses of the standard library on
-- text: UTF-8, digits, case. Server/Value.antt has the protocol's values. Server/Exec.antt is the
-- way commands are composed: a command takes the state and the arguments left, and answers or
-- refuses; a refusal keeps the changes made before it, as the code's early returns do. `?` is the
-- bind; a failed `expect` is the error `panic`. Common.antt and its children are shared helpers:
-- tests, lists, integers, orders, maps as association lists in the order of their keys.
--
-- How the state corresponds: `State` has the fields of the code's `State`; three fields more stand
-- for the coordinator: the calls of `enqueued`, of `consumed`, and the timers scheduled. A timer's
-- closure is the constructor of `Fire` with what it captured. `Server` has what a command reads of
-- the server besides. The clock holds still during a command, as the paused clock of the tests
-- does. A hash map or set is kept in the order of its keys, one of the orders that the code may
-- visit it in. Doubles are their 64 bits, with their operations as a parameter (`Doubles`); so is
-- fred's hash slot (`keyslot`). The `HeaderMap` of the ruststream crate is a parameter
-- (`HeaderMaps`), and what is relied on of it is named in `HeaderMapLaws`. An envelope's `seal`
-- answers the value with the message appended, where the code appends in place; what a refused
-- seal leaves in the buffer, which every caller drops, is not kept. The client's calls are a
-- parameter of the delayed retries (`Client`) and of the recovery (`ListClient`), and so are a
-- window's segments, which are the client's pipelines, and what the settle of a form adds.
-- `Window::settle` holds the lock twice and may wait between: `begin_settle`, `keep_segment` and
-- `finish_settle` are its three parts; `settle_delivery` has the check of the connection and the
-- closing of the slot in front of them. A retry count past the greatest 64-bit number starts
-- again, as in a release build; a debug build panics there.
--
-- Bounds and fuel: ids are pairs of 64-bit numbers, capped where the code caps them; `MAXLEN`,
-- `COUNT` and the indices of a list go through the code's conversions, with what those do out of
-- range. The matcher of a glob is given the pattern's length as fuel, and each step takes a byte
-- of the pattern off; the loops over options are given one more than the arguments left, and each
-- round takes an argument. The check of UTF-8 is given the text's length.
--
-- Not modelled: waiting and waking (the code's `Notify`), the clients that `connect` builds; what a
-- subscriber settles with the coordinator by itself, and what a tap discards (loopback.rs):
-- `consumed` has the releases that the server makes; the capacity of a broadcast channel; an instant too far ahead for the machine;
-- the connection, the pipelines' commands and forms, and the subscriptions, which stand on the
-- client. The members that a removal by score takes are taken in the order of the keys, where the
-- code's order is that of a hash map.
pub mod Common
pub mod Server
pub mod Envelope
pub mod Broker
pub mod Pipeline
