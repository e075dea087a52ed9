-- ===== src/Server/Args.antt =====
-- in_process/args.rs: reading a command's arguments and writing its reply.
pub mod Laws
use Prim.Native.String.{String}
use ruststream_fred.Common.{
  ℕ, zero, suc, ◌+◌, Bool, true, false, List, [], ◌∷◌, Option, none, some, eqb, length, min,
  if◌then◌else◌,
}
use ruststream_fred.Common.Int.{ℤ, pos, negsuc}
use ruststream_fred.Server.Text.{Bytes, b, is_utf8, eq_ignore_ascii_case, to_ascii_lowercase}
use ruststream_fred.Server.Text.Decimal.{print_int, parse_i64, i64_max}
use ruststream_fred.Common.Order.{◌==◌, bytes_ord}
use ruststream_fred.Server.Value.{
  Double, Doubles, Value, bytes, string, integer, double, boolean, array, null, Error, syntax,
  arity, not_integer, not_float,
}
use ruststream_fred.Server.State.{Server}
use ruststream_fred.Server.Exec.{
  Exec, Context, Args, Result, ok, err, ◌>>=◌, pure, refuse, lift, required, ok_or,
}

module _ (doubles : Doubles) where
  -- `float_text`
  unfoldable pub float_text : Double → Bytes
  float_text number =
      if doubles.is_infinite number
      then (if doubles.is_positive number then b "inf" else b "-inf")
      else if doubles.is_integral number
      then print_int (doubles.to_i64 number)
      else doubles.display number

  -- `bytes_of`
  unfoldable pub bytes_of : Value → Result Bytes
  unfolding float_text
  bytes_of (bytes x) = ok x
  bytes_of (string x) = ok x
  bytes_of (integer n) = ok (print_int n)
  bytes_of (double n) = ok (float_text n)
  bytes_of (boolean flag) = ok (if flag then b "1" else b "0")
  bytes_of _ = err syntax

  as_text : Result Bytes → Result Bytes
  as_text (ok x) = if is_utf8 x then ok x else err syntax
  as_text (err e) = err e

  -- `text_of`
  unfoldable pub text_of : Value → Result Bytes
  unfolding as_text bytes_of
  text_of v = as_text (bytes_of v)

  parsed_int : Result Bytes → Result ℤ
  parsed_int (ok x) = ok_or (parse_i64 x) not_integer
  parsed_int (err e) = err e

  -- `int_of`
  unfoldable pub int_of : Value → Result ℤ
  unfolding parsed_int text_of
  int_of (integer n) = ok n
  int_of v = parsed_int (text_of v)

  parse_double : Bytes → Option Double
  parse_double x =
      if x == b "inf"
      then some doubles.infinity
      else if x == b "+inf"
      then some doubles.infinity
      else if x == b "-inf"
      then some doubles.neg_infinity
      else doubles.parse x

  not_nan : Option Double → Result Double
  not_nan none = err not_float
  not_nan (some n) = if doubles.is_nan n then err not_float else ok n

  parsed_double : Result Bytes → Result Double
  unfolding parse_double not_nan
  parsed_double (ok x) = not_nan (parse_double (to_ascii_lowercase x))
  parsed_double (err e) = err e

  -- `float_of`
  unfoldable pub float_of : Value → Result Double
  unfolding parsed_double not_nan text_of
  float_of (double n) = not_nan (some n)
  float_of (integer n) = not_nan (some (doubles.of_i64 n))
  float_of v = parsed_double (text_of v)

-- `Args::left`
unfoldable pub left : Exec ℕ
left c = (ok (length c.args.rest), c)

-- `Args::arity`, as the refusal
unfoldable pub refuse_arity : {A : Type 0} → Exec A
refuse_arity c = (err (arity (to_ascii_lowercase c.args.command)), c)

abbrev take_next : List Value → Context → Result Value × Context
take_next [] c = (err (arity (to_ascii_lowercase c.args.command)), c)
take_next (v ∷ vs) c = (ok v, record c { args = record { command = c.args.command; rest = vs } })

-- `Args::next`
unfoldable pub next : Exec Value
next c = take_next c.args.rest c

-- `Args::done`
unfoldable pub done : Exec (Unit {0})
done = do n ← left; if eqb n 0 then pure tt else refuse syntax

abbrev is_word : Bytes → Result Bytes → Bool
is_word w (ok x) = eq_ignore_ascii_case x w
is_word w (err e) = false

module _ (server : Server) where
  abbrev take_word : Bytes → List Value → Context → Result Bool × Context
  take_word w [] c = (ok false, c)
  take_word w (v ∷ vs) c =
      if is_word w (text_of server.doubles v)
      then (ok true, record c { args = record { command = c.args.command; rest = vs } })
      else (ok false, c)

  -- `Args::word`
  unfoldable pub word : String → Exec Bool
  word w c = take_word (b w) c.args.rest c

  -- `Args::bytes`, `text`, `int`, `float`
  unfoldable pub next_bytes : Exec Bytes
  next_bytes = do v ← next; lift (bytes_of server.doubles v)

  unfoldable pub next_text : Exec Bytes
  next_text = do v ← next; lift (text_of server.doubles v)

  unfoldable pub next_int : Exec ℤ
  next_int = do v ← next; lift (int_of server.doubles v)

  unfoldable pub next_float : Exec Double
  next_float = do v ← next; lift (float_of server.doubles v)

  -- The loop of `rest` over the arguments left: a round for each.
  unfoldable pub rest_from : ℕ → Exec (List Bytes)
  rest_from zero = pure []
  rest_from (suc n) = do x ← next_bytes; xs ← rest_from n; pure (x ∷ xs)

  -- `Args::rest`
  unfoldable pub rest : Exec (List Bytes)
  rest = do n ← left; rest_from n

-- `ok`, `int`, `bulk`
abbrev pub ok_reply : Value
ok_reply = string (b "OK")

abbrev pub int : ℕ → Value
int n = integer (pos (min n i64_max))

abbrev pub bulk : Bytes → Value
bulk = bytes

-- `map_or(Value::Null, bulk)`
abbrev pub bulk_or_null : Option Bytes → Value
bulk_or_null none = null
bulk_or_null (some x) = bulk x

-- `usize::try_from` of an `i64`
abbrev pub to_usize : ℤ → Option ℕ
to_usize (pos n) = some n
to_usize (negsuc n) = none

-- `unsigned_abs`
abbrev pub unsigned_abs : ℤ → ℕ
unsigned_abs (pos n) = n
unsigned_abs (negsuc n) = suc n
