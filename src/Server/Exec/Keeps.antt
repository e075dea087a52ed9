-- ===== src/Server/Exec/Keeps.antt =====
-- Predicates of the state that a command keeps, whether it answers or refuses: a rule for each way
-- to build a command.
use ruststream_fred.Common.{Bool, true, false, Option, none, some, if◌then◌else◌}
use ruststream_fred.Server.Value.{Error}
use ruststream_fred.Server.State.{State}
use ruststream_fred.Server.Exec.{
  Exec, Context, Result, ok, err, ◌>>=◌, pure, refuse, lift, reads, change, required,
}

pub record Keeps {A : Type 0} (P : State → Type 0) (m : Exec A) : Type 0 where
  pub at : (c : Context) → P c.state → P (m c).1.state

module _ {A : Type 0} {P : State → Type 0} where
  pub pure-Keeps : (a : A) → Keeps P (pure a)
  unfolding pure
  pure-Keeps a = record { at = λ c h. h }

  pub refuse-Keeps : (e : Error) → Keeps P (refuse {A = A} e)
  unfolding refuse
  refuse-Keeps e = record { at = λ c h. h }

  pub lift-Keeps : (r : Result A) → Keeps P (lift r)
  unfolding lift
  lift-Keeps r = record { at = λ c h. h }

  pub reads-Keeps : (f : State → A) → Keeps P (reads f)
  unfolding reads
  reads-Keeps f = record { at = λ c h. h }

  pub required-Keeps : (o : Option A) (e : Error) → Keeps P (required o e)
  unfolding required
  required-Keeps none e = record { at = λ c h. h }
  required-Keeps (some a) e = record { at = λ c h. h }

  pub if-Keeps : (t : Bool) (m n : Exec A) → Keeps P m → Keeps P n → Keeps P (if t then m else n)
  if-Keeps true m n km kn = km
  if-Keeps false m n km kn = kn

module _ {P : State → Type 0} where
  pub change-Keeps : (f : State → State) → ((s : State) → P s → P (f s)) → Keeps P (change f)
  unfolding change
  change-Keeps f k = record { at = λ c h. k c.state h }

module _ {A B : Type 0} {P : State → Type 0} where
  proceed-Keeps :
      (r : Result A) (c : Context) (f : A → Exec B)
      → ((a : A) → Keeps P (f a))
      → P c.state
      → P (((λ (d : Context). (r, d)) >>= f) c).1.state
  unfolding ◌>>=◌
  proceed-Keeps (ok a) c f kf h = (kf a).at c h
  proceed-Keeps (err e) c f kf h = h

  pub bind-Keeps :
      (m : Exec A) (f : A → Exec B) → Keeps P m → ((a : A) → Keeps P (f a)) → Keeps P (m >>= f)
  unfolding ◌>>=◌
  bind-Keeps m f km kf = record { at = λ c h. proceed-Keeps (m c).0 (m c).1 f kf (km.at c h) }

pub ruleset keeps_rules =
    (pure-Keeps, refuse-Keeps, lift-Keeps, reads-Keeps, required-Keeps, if-Keeps, bind-Keeps)
