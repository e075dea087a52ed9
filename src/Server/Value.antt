-- ===== src/Server/Value.antt =====
-- The values of the protocol (`fred::types::Value`, in the forms the server reads and writes), its
-- errors, and the operations on doubles that the standard library has.
use ruststream_fred.Common.{ℕ, Bool, List, [], ◌∷◌, Option}
use ruststream_fred.Common.Int.{ℤ}
use ruststream_fred.Server.Text.{Bytes}

-- An `f64` is its 64 bits; what the code asks of one is a parameter.
abbrev pub Double : Type 0
Double = ℕ

pub record Doubles : Type 0 where
  pub is_infinite : Double → Bool
  pub is_nan : Double → Bool
  -- `number > 0.0`
  pub is_positive : Double → Bool
  -- `number.fract() == 0.0 && number.abs() < 1e17`
  pub is_integral : Double → Bool
  -- `number as i64`
  pub to_i64 : Double → ℤ
  -- `number as f64`
  pub of_i64 : ℤ → Double
  -- `number.to_string()` and `text.parse::<f64>()`
  pub display : Double → Bytes
  pub parse : Bytes → Option Double
  -- `==`, `<` and `+`
  pub equal : Double → Double → Bool
  pub less : Double → Double → Bool
  pub plus : Double → Double → Double
  -- `total_cmp`, where it answers less
  pub total_less : Double → Double → Bool
  -- `millis as f64`, and `x.max(0.0) as u64`
  pub of_millis : ℕ → Double
  pub to_millis : Double → ℕ
  pub infinity : Double
  pub neg_infinity : Double

mutual
  pub data Value : Type 0 where
    bytes string : Bytes → Value
    integer : ℤ → Value
    double : Double → Value
    boolean : Bool → Value
    array : Values → Value
    null : Value

  pub data Values : Type 0 where
    nil : Values
    cons : Value → Values → Values

-- The elements of an array reply.
abbrev pub of_list : List Value → Values
of_list [] = nil
of_list (v ∷ vs) = cons v (of_list vs)

-- The error replies, one constructor for each text the server writes.
pub data Error : Type 0 where
  syntax wrong_type not_integer not_float : Error
  arity : Bytes → Error
  invalid_id id_too_small : Error
  no_group : Bytes → Bytes → Bytes → Error
  busy_group key_must_exist unbalanced : Error
  unknown_subcommand : Bytes → Error
  invalid_expiry : Error
  no_scripts : Bytes → Error
  unknown_command : Bytes → Error
  zadd_incr zadd_options bound_not_float : Error
  crossslot exec_abort closed : Error
  -- a failed `expect`, which is a panic and no reply
  panic : Error
