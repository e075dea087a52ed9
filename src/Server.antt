-- ===== src/Server.antt =====
-- The in-process server of crates/ruststream-fred/src/in_process: its state, its commands, and what
-- they keep.
pub mod Text
pub mod Value
pub mod State
pub mod Exec
pub mod Args
pub mod Keyspace
pub mod Glob
pub mod Counts
pub mod Links
pub mod Lists
pub mod ListCommands
pub mod ListReads
pub mod Ids
pub mod Streams
pub mod StreamCommands
pub mod Groups
pub mod GroupCommands
pub mod GroupReads
pub mod AutoClaim
pub mod Keys
pub mod KeyCommands
pub mod Collections
pub mod ServerCommands
pub mod SortedSets
pub mod SortedSetCommands
pub mod Slots
pub mod Pendings
pub mod Dispatch
pub mod World
pub mod Reach
pub mod Conservation
pub mod Tests
