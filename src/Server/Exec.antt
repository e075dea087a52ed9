-- ===== src/Server/Exec.antt =====
-- A command reads its arguments and changes the state; a refusal keeps what was changed before it.
pub mod Keeps
use ruststream_fred.Common.{ℕ, List, [], ◌∷◌, Option, none, some}
use ruststream_fred.Server.Text.{Bytes}
use ruststream_fred.Server.Value.{Value, Error}
use ruststream_fred.Server.State.{State}

pub data Result (A : Type 0) : Type 0 where
  ok : A → Result A
  err : Error → Result A

-- `struct Args`: the command's name, and the arguments past `at`.
pub record Args : Type 0 where
  pub command : Bytes
  pub rest : List Value

pub record Context : Type 0 where
  pub state : State
  pub args : Args

abbrev pub Exec : Type 0 → Type 0
Exec A = Context → Result A × Context

abbrev proceed : {A B : Type 0} → Result A × Context → (A → Exec B) → Result B × Context
proceed (ok a, c) f = f a c
proceed (err e, c) f = (err e, c)

infixl 5 ◌>>=◌ ◌>>◌
unfoldable pub ◌>>=◌ : {A B : Type 0} → Exec A → (A → Exec B) → Exec B
◌>>=◌ m f c = proceed (m c) f

abbrev pub ◌>>◌ : {A B : Type 0} → Exec A → Exec B → Exec B
m >> k = m >>= λ _. k

unfoldable pub pure : {A : Type 0} → A → Exec A
pure a c = (ok a, c)

-- `return Err(e)`
unfoldable pub refuse : {A : Type 0} → Error → Exec A
refuse e c = (err e, c)

-- `?` on a result that is at hand
unfoldable pub lift : {A : Type 0} → Result A → Exec A
lift r c = (r, c)

-- A read of the state.
unfoldable pub reads : {A : Type 0} → (State → A) → Exec A
reads f c = (ok (f c.state), c)

-- A change of the state.
unfoldable pub change : (State → State) → Exec (Unit {0})
change f c = (ok tt, record c { state = f c.state })

-- `ok_or_else`
unfoldable pub required : {A : Type 0} → Option A → Error → Exec A
required none e c = (err e, c)
required (some a) e c = (ok a, c)

-- `ok_or` on a pure result
abbrev pub ok_or : {A : Type 0} → Option A → Error → Result A
ok_or none e = err e
ok_or (some a) e = ok a
