-- ===== src/Server/Args/Laws.antt =====
-- Reading arguments leaves the state alone.
use ruststream_fred.Common.{ℕ, zero, suc, List, [], ◌∷◌, arith}
use ruststream_fred.Server.Value.{Value}
use ruststream_fred.Server.State.{State, Server}
use ruststream_fred.Server.Exec.Keeps.{Keeps, keeps_rules, bind-Keeps, pure-Keeps}
use ruststream_fred.Server.Args.{
  left, refuse_arity, next, done, take_next, word, next_bytes, next_text, next_int, next_float,
  rest_from, rest,
}

module _ {P : State → Type 0} where
  pub left-Keeps : Keeps P left
  unfolding left
  left-Keeps = record { at = λ c h. h }

  pub refuse_arity-Keeps : {A : Type 0} → Keeps P (refuse_arity {A = A})
  unfolding refuse_arity
  refuse_arity-Keeps = record { at = λ c h. h }

  take_next-Keeps : (vs : List Value) → Keeps P (take_next vs)
  take_next-Keeps [] = record { at = λ c h. h }
  take_next-Keeps (v ∷ vs) = record { at = λ c h. h }

  pub next-Keeps : Keeps P next
  unfolding next
  next-Keeps = record { at = λ c h. (take_next-Keeps c.args.rest).at c h }

  pub done-Keeps : Keeps P done
  unfolding done
  done-Keeps = search (keeps_rules, left-Keeps)

  module _ (server : Server) where
    pub word-Keeps : (w : _) → Keeps P (word server w)
    unfolding word
    word-Keeps w = record { at = λ c h. ground arith }

    pub next_bytes-Keeps : Keeps P (next_bytes server)
    unfolding next_bytes
    next_bytes-Keeps = search (keeps_rules, next-Keeps)

    pub next_text-Keeps : Keeps P (next_text server)
    unfolding next_text
    next_text-Keeps = search (keeps_rules, next-Keeps)

    pub next_int-Keeps : Keeps P (next_int server)
    unfolding next_int
    next_int-Keeps = search (keeps_rules, next-Keeps)

    pub next_float-Keeps : Keeps P (next_float server)
    unfolding next_float
    next_float-Keeps = search (keeps_rules, next-Keeps)

    rest_from-Keeps : (n : ℕ) → Keeps P (rest_from server n)
    unfolding rest_from
    rest_from-Keeps zero = search keeps_rules
    rest_from-Keeps (suc n) =
        bind-Keeps _ _ next_bytes-Keeps λ x. bind-Keeps _ _ (rest_from-Keeps n) λ xs. pure-Keeps _

    pub rest-Keeps : Keeps P (rest server)
    unfolding rest
    rest-Keeps = search (keeps_rules, left-Keeps, rest_from-Keeps)

pub ruleset args_rules = (
  keeps_rules, left-Keeps, refuse_arity-Keeps, next-Keeps, done-Keeps, word-Keeps, next_bytes-Keeps,
  next_text-Keeps, next_int-Keeps, next_float-Keeps, rest-Keeps,
)
