-- ===== src/Server/Conservation/Reads.antt =====
-- What was handed out stays counted through the stream commands, the reads among them.
use ruststream_fred.Common.{ℕ, zero, suc, ◌≡◌, Bool, true, List, [], ◌∷◌, Option, none, some}
use ruststream_fred.Common.Order.{nat_ord, bytes_ord, pair_ord}
use ruststream_fred.Server.Text.{Bytes}
use ruststream_fred.Server.State.{Server, Stream, Group, EntryId}
use ruststream_fred.Server.Exec.{change}
use ruststream_fred.Server.Exec.Keeps.{Keeps, bind-Keeps, pure-Keeps}
use ruststream_fred.Server.Args.Laws.{args_rules}
use ruststream_fred.Server.Groups.{handed_out}
use ruststream_fred.Server.GroupCommands.{find_group, store_group, xack, xgroup}
use ruststream_fred.Server.GroupReads.{
  ReadOptions, read_group, read_groups, read_options, xreadgroup,
}
use ruststream_fred.Server.AutoClaim.{claim_options, xautoclaim}
use ruststream_fred.Server.Pendings.{idle_option, consumer_option, xpending}
use ruststream_fred.Server.StreamCommands.{xadd, xlen, xrange, xdel, xtrim, parse_bound}
use ruststream_fred.Server.Dispatch.{stream_commands, group_commands}
use ruststream_fred.Server.Conservation.Covered.{
  IsCovered, counted-Keeps, covered_rules, handed_out-Covers,
}
use ruststream_fred.Server.Conservation.Streams.{xadd-Keeps, xdel-Keeps, xtrim-Keeps}
use ruststream_fred.Server.Conservation.Groups.{
  find_group-Keeps, store_group-Keeps, xack-Keeps, xgroup-Keeps,
}

module _ (server : Server) (installed : server.has_coordinator ≡ true) (n : ℕ) where
  find_group-Covers :
      (key name command : Bytes) → Keeps (IsCovered n) (find_group server key name command)
  find_group-Covers key name command =
      counted-Keeps n _ (λ handed. find_group-Keeps server installed handed key name command)

  store_group-Covers :
      (key name : Bytes) (stream : Stream) (g : Group)
      → Keeps (IsCovered n) (store_group server key name stream g)
  store_group-Covers key name stream g =
      counted-Keeps n _ (λ handed. store_group-Keeps server installed handed key name stream g)

  hand_out-Covers :
      (key group consumer : Bytes) (ids : List EntryId) (noack : Bool)
      → Keeps (IsCovered n) (change (handed_out server key group consumer ids noack))
  hand_out-Covers = handed_out-Covers server installed n

  ruleset group_rules =
      (covered_rules, args_rules, find_group-Covers, store_group-Covers, hand_out-Covers)

  read_group-Covers :
      (key name consumer id : Bytes) (o : ReadOptions)
      → Keeps (IsCovered n) (read_group server key name consumer id o)
  unfolding read_group
  read_group-Covers key name consumer id o = search group_rules depth 14

  read_groups-Covers :
      (name consumer : Bytes) (o : ReadOptions) (keys ids : List Bytes)
      → Keeps (IsCovered n) (read_groups server name consumer o keys ids)
  unfolding read_groups
  read_groups-Covers name consumer o [] ids = search args_rules
  read_groups-Covers name consumer o (key ∷ keys) [] = search args_rules
  read_groups-Covers name consumer o (key ∷ keys) (id ∷ ids) =
      bind-Keeps _ _ (read_group-Covers key name consumer id o) λ entries.
        bind-Keeps _ _ (read_groups-Covers name consumer o keys ids) λ replies. pure-Keeps _

  read_options-Covers :
      (fuel : ℕ) (o : ReadOptions) → Keeps (IsCovered n) (read_options server fuel o)
  unfolding read_options
  read_options-Covers zero o = search args_rules
  read_options-Covers (suc fuel) o = search (args_rules, read_options-Covers fuel) depth 16

  xreadgroup-Covers : Keeps (IsCovered n) (xreadgroup server)
  unfolding xreadgroup
  xreadgroup-Covers = search (args_rules, read_options-Covers, read_groups-Covers) depth 14

  claim_options-Covers :
      (fuel count : ℕ) (just_id : Bool)
      → Keeps (IsCovered n) (claim_options server fuel count just_id)
  unfolding claim_options
  claim_options-Covers zero count just_id = search args_rules
  claim_options-Covers (suc fuel) count just_id =
      search (args_rules, claim_options-Covers fuel) depth 14

  xautoclaim-Covers : Keeps (IsCovered n) (xautoclaim server)
  unfolding xautoclaim
  xautoclaim-Covers = search (group_rules, claim_options-Covers) depth 18

  idle_option-Covers : Keeps (IsCovered n) (idle_option server)
  unfolding idle_option
  idle_option-Covers = search args_rules

  consumer_option-Covers : Keeps (IsCovered n) (consumer_option server)
  unfolding consumer_option
  consumer_option-Covers = search args_rules

  xpending-Covers : Keeps (IsCovered n) (xpending server)
  unfolding xpending
  xpending-Covers = search (args_rules, idle_option-Covers, consumer_option-Covers) depth 18

  xlen-Covers : Keeps (IsCovered n) (xlen server)
  unfolding xlen
  xlen-Covers = search args_rules depth 9

  parse_bound-Covers : Keeps (IsCovered n) (parse_bound server)
  unfolding parse_bound
  parse_bound-Covers = search args_rules

  xrange-Covers : (reverse : Bool) → Keeps (IsCovered n) (xrange server reverse)
  unfolding xrange
  xrange-Covers reverse = search (args_rules, parse_bound-Covers) depth 14

  xadd-Covers : Keeps (IsCovered n) (xadd server)
  xadd-Covers = counted-Keeps n _ (xadd-Keeps server installed)

  xdel-Covers : Keeps (IsCovered n) (xdel server)
  xdel-Covers = counted-Keeps n _ (xdel-Keeps server installed)

  xtrim-Covers : Keeps (IsCovered n) (xtrim server)
  xtrim-Covers = counted-Keeps n _ (xtrim-Keeps server installed)

  xack-Covers : Keeps (IsCovered n) (xack server)
  xack-Covers = counted-Keeps n _ (xack-Keeps server installed)

  xgroup-Covers : (sub : Bytes) → Keeps (IsCovered n) (xgroup server sub)
  xgroup-Covers sub = counted-Keeps n _ (λ handed. xgroup-Keeps server installed handed sub)

  group_commands-Covers :
      (name : Bytes) (sub : Option Bytes) → Keeps (IsCovered n) (group_commands server name sub)
  unfolding group_commands
  group_commands-Covers name none = search args_rules
  group_commands-Covers name (some sub) = search (args_rules, xgroup-Covers)

  pub stream_commands-Covers :
      (name : Bytes) (sub : Option Bytes) → Keeps (IsCovered n) (stream_commands server name sub)
  unfolding stream_commands
  stream_commands-Covers name sub =
      search
        (
          args_rules, xadd-Covers, xlen-Covers, xrange-Covers, xdel-Covers, xtrim-Covers,
          xack-Covers, xreadgroup-Covers, xautoclaim-Covers, xpending-Covers, group_commands-Covers,
        )
        depth 14
