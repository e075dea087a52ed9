-- ===== src/Common/Order.antt =====
-- The bound `K: Ord` of an ordered map's key, and the instances the server uses: numbers, bytes,
-- pairs.
use Prim.Native.Nat.{ℕ, compare, Ordering}
use Prim.Native.Nat.Ordering.{lt, eq, gt}
use mathlib.Core.Bool.{Bool, true, false}
use mathlib.Core.Path.{◌≡◌, refl}
use mathlib.Core.List.{List, [], ◌∷◌}
use native.Mathlib.Omega.{arith}

abbrev pub flip : Ordering → Ordering
flip lt = gt
flip eq = eq
flip gt = lt

pub record Ord (K : Type 0) : Type 0 where
  pub cmp : K → K → Ordering
  pub cmp_self : (a : K) → cmp a a ≡ eq
  pub eq_of_cmp : (a b : K) → cmp a b ≡ eq → a ≡ b
  pub cmp_swap : (a b : K) → cmp b a ≡ flip (cmp a b)
  pub cmp_trans : (a b c : K) → cmp a b ≡ lt → cmp b c ≡ lt → cmp a c ≡ lt

abbrev pub is_lt : Ordering → Bool
is_lt lt = true
is_lt _ = false

abbrev pub is_eq : Ordering → Bool
is_eq eq = true
is_eq _ = false

infix 50 ◌==◌ ◌<?◌ ◌≺◌
abbrev pub ◌==◌ : {K : Type 0} ⦃o : Ord K⦄ → K → K → Bool
◌==◌ ⦃o⦄ a b = is_eq (o.cmp a b)

abbrev pub ◌<?◌ : {K : Type 0} ⦃o : Ord K⦄ → K → K → Bool
◌<?◌ ⦃o⦄ a b = is_lt (o.cmp a b)

abbrev pub ◌≺◌ : {K : Type 0} ⦃o : Ord K⦄ → K → K → Type 0
◌≺◌ ⦃o⦄ a b = o.cmp a b ≡ lt

pub compare_trans : (a b c : ℕ) → compare a b ≡ lt → compare b c ≡ lt → compare a c ≡ lt
compare_trans a b c h k = ground arith

pub compare_swap : (a b : ℕ) → compare b a ≡ flip (compare a b)
compare_swap a b = ground arith

pub eq_of_compare : (a b : ℕ) → compare a b ≡ eq → a ≡ b
eq_of_compare a b h = ground arith

pub compare_self : (a : ℕ) → compare a a ≡ eq
compare_self a = ground arith

instance abbrev pub nat_ord : Ord ℕ
nat_ord = record {
  cmp = compare;
  cmp_self = compare_self;
  eq_of_cmp = eq_of_compare;
  cmp_swap = compare_swap;
  cmp_trans = compare_trans;
}

-- Lexicographic order of two comparisons.
abbrev pub then_cmp : Ordering → Ordering → Ordering
then_cmp eq second = second
then_cmp lt second = lt
then_cmp gt second = gt

-- Byte strings compare as `[u8]` does.
abbrev pub cmp_bytes : List ℕ → List ℕ → Ordering
cmp_bytes [] [] = eq
cmp_bytes [] (y ∷ ys) = lt
cmp_bytes (x ∷ xs) [] = gt
cmp_bytes (x ∷ xs) (y ∷ ys) = then_cmp (compare x y) (cmp_bytes xs ys)

pub cmp_bytes_self : (xs : List ℕ) → cmp_bytes xs xs ≡ eq
cmp_bytes_self [] = refl
cmp_bytes_self (x ∷ xs) = ground (arith, cmp_bytes_self xs)

pub eq_of_cmp_bytes : (xs ys : List ℕ) → cmp_bytes xs ys ≡ eq → xs ≡ ys
eq_of_cmp_bytes [] [] h = refl
eq_of_cmp_bytes [] (y ∷ ys) h = cc
eq_of_cmp_bytes (x ∷ xs) [] h = cc
eq_of_cmp_bytes (x ∷ xs) (y ∷ ys) h = ground (arith, eq_of_cmp_bytes xs ys)

pub cmp_bytes_swap : (xs ys : List ℕ) → cmp_bytes ys xs ≡ flip (cmp_bytes xs ys)
cmp_bytes_swap [] [] = refl
cmp_bytes_swap [] (y ∷ ys) = refl
cmp_bytes_swap (x ∷ xs) [] = refl
cmp_bytes_swap (x ∷ xs) (y ∷ ys) = ground (arith, cmp_bytes_swap xs ys)

pub cmp_bytes_trans :
    (xs ys zs : List ℕ) → cmp_bytes xs ys ≡ lt → cmp_bytes ys zs ≡ lt → cmp_bytes xs zs ≡ lt
cmp_bytes_trans [] [] zs h k = cc
cmp_bytes_trans [] (y ∷ ys) [] h k = cc
cmp_bytes_trans [] (y ∷ ys) (z ∷ zs) h k = refl
cmp_bytes_trans (x ∷ xs) [] zs h k = cc
cmp_bytes_trans (x ∷ xs) (y ∷ ys) [] h k = cc
cmp_bytes_trans (x ∷ xs) (y ∷ ys) (z ∷ zs) h k = ground (arith, cmp_bytes_trans xs ys zs)

instance abbrev pub bytes_ord : Ord (List ℕ)
bytes_ord = record {
  cmp = cmp_bytes;
  cmp_self = cmp_bytes_self;
  eq_of_cmp = eq_of_cmp_bytes;
  cmp_swap = cmp_bytes_swap;
  cmp_trans = cmp_bytes_trans;
}

module _ {A B : Type 0} ⦃a : Ord A⦄ ⦃b : Ord B⦄ where
  abbrev pub lex : A × B → A × B → Ordering
  lex x y = then_cmp (a.cmp x.0 y.0) (b.cmp x.1 y.1)

  pub lex_self : (x : A × B) → lex x x ≡ eq
  lex_self x = simp (a.cmp_self, b.cmp_self)

  pub eq_of_lex : (x y : A × B) → lex x y ≡ eq → x ≡ y
  eq_of_lex x y h = ground (arith, a.eq_of_cmp x.0 y.0, b.eq_of_cmp x.1 y.1)

  pub lex_swap : (x y : A × B) → lex y x ≡ flip (lex x y)
  lex_swap x y = ground (arith, a.cmp_swap x.0 y.0, b.cmp_swap x.1 y.1)

  pub lex_trans : (x y z : A × B) → lex x y ≡ lt → lex y z ≡ lt → lex x z ≡ lt
  lex_trans x y z h k = ground (
    arith,
    a.eq_of_cmp x.0 y.0,
    a.eq_of_cmp y.0 z.0,
    a.cmp_self x.0,
    a.cmp_trans x.0 y.0 z.0,
    b.cmp_trans x.1 y.1 z.1,
  )

  instance abbrev pub pair_ord : Ord (A × B)
  pair_ord = record {
    cmp = lex;
    cmp_self = lex_self;
    eq_of_cmp = eq_of_lex;
    cmp_swap = lex_swap;
    cmp_trans = lex_trans;
  }
