-- ===== src/Server/Tests/Listed.antt =====
-- Lists and keys at a concrete keyspace.
use ruststream_fred.Common.{◌<◌, ◌≤◌, ◌≡◌, refl, arith, true, if◌then◌else◌, [], ◌∷◌, some}
use ruststream_fred.Common.Int.{pos, negsuc}
use ruststream_fred.Common.Order.{◌==◌, bytes_ord}
use ruststream_fred.Common.Map.{get}
use ruststream_fred.Server.Text.{Bytes, b}
use ruststream_fred.Server.Text.Decimal.{print_int, parse_i64, parse_i64-print_int}
use ruststream_fred.Server.State.{list}
use ruststream_fred.Server.Exec.{ok}
use ruststream_fred.Server.Args.{int}
use ruststream_fred.Server.Keyspace.{lists, live, purge, read, prepare, found, store}
use ruststream_fred.Server.Keyspace.Laws.{live-store, lists-IsLawful}
use ruststream_fred.Server.Lists.{
  left_end, right_end, push, push_all, pop_many, range, range_start, range_stop, clip, trimmed,
  slice, remove_values,
}
use ruststream_fred.Server.ListCommands.{push_values}
use ruststream_fred.Server.Lists.Commands.{push_values_lem}
use ruststream_fred.Server.Lists.Ends.{pop_many-push_all, range_within, trimmed-eq-slice}
use ruststream_fred.Server.Lists.Removal.{Removes, remove_values-Removes}
use ruststream_fred.Server.Tests.{test_server, test_state, with_args}

push_values_lem_example :
    let r = push_values test_server left_end (b "jobs") (b "w" ∷ []) (with_args []) in
    (r.0 ≡ ok (int 4))
    × ((k : Bytes)
        → live k 9_000_000 r.1.state.keys ≡ (
            if b "jobs" == k
            then some (list (b "w" ∷ b "x" ∷ b "y" ∷ b "x" ∷ []))
            else live k 9_000_000 test_state.keys))
unfolding push_all push read live lists get
push_values_lem_example =
    push_values_lem test_server left_end (b "jobs") (b "w" ∷ []) (some (b "x" ∷ b "y" ∷ b "x" ∷ []))
      (with_args []) refl

pop_many-push_all_example :
    pop_many right_end 3 (push_all left_end (b "1" ∷ b "2" ∷ []) (b "0" ∷ []))
    ≡ (b "0" ∷ b "1" ∷ b "2" ∷ [], [])
pop_many-push_all_example = pop_many-push_all (b "1" ∷ b "2" ∷ []) (b "0" ∷ [])

range_within_example : (1 ≤ 2) × (2 < 3)
unfolding range clip range_stop range_start
range_within_example = range_within (pos 1) (negsuc 0) 3 1 2 refl

trimmed-eq-slice_example :
    trimmed (range (pos 1) (negsuc 0) 3) (b "x" ∷ b "y" ∷ b "z" ∷ [])
    ≡ slice (b "x" ∷ b "y" ∷ b "z" ∷ []) (range (pos 1) (negsuc 0) 3)
trimmed-eq-slice_example = trimmed-eq-slice (pos 1) (negsuc 0) (b "x" ∷ b "y" ∷ b "z" ∷ [])

remove_values-Removes_example :
    Removes 1
      (b "x")
      (b "x" ∷ b "y" ∷ b "x" ∷ [])
      (remove_values (negsuc 0) (b "x") (b "x" ∷ b "y" ∷ b "x" ∷ []))
remove_values-Removes_example =
    remove_values-Removes (negsuc 0) (b "x") (b "x" ∷ b "y" ∷ b "x" ∷ [])

live-store_example :
    live (b "jobs") 5 (store lists (b "jobs") [] (prepare lists (b "jobs") 5 true test_state.keys))
    ≡ some (list [])
unfolding lists found prepare live get purge
live-store_example =
    live-store lists lists-IsLawful (b "jobs") (b "jobs") 5 true [] (b "x" ∷ b "y" ∷ b "x" ∷ [])
      test_state.keys refl

parse_i64-print_int_example : parse_i64 (print_int (negsuc 41)) ≡ some (negsuc 41)
parse_i64-print_int_example = parse_i64-print_int (negsuc 41) (omega arith)
