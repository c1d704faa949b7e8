-- ===== src/Outcome.antt =====
-- How a call of the program ends.
use openflow_controller.Prelude.{◌≡◌, refl}

-- How a call ends. `exited` is the program's own `exit(1)`; `crashed` is a dereference of a null pointer
-- or of an entry past the end of an array; `out_of_fuel` is a loop that did not end in the rounds given.
pub data Outcome (A : Type 0) : Type 0 where
  done : A → Outcome A
  exited crashed out_of_fuel : Outcome A

infixl 5 ◌>>=◌
abbrev pub ◌>>=◌ : {A B : Type 0} → Outcome A → (A → Outcome B) → Outcome B
done a >>= f = f a
exited >>= f = exited
crashed >>= f = crashed
out_of_fuel >>= f = out_of_fuel

-- The call returns, and its result is as the predicate says.
abbrev pub Gives : {A : Type 0} → Outcome A → (A → Type 0) → Type 0
Gives (done a) P = P a
Gives exited P = ⊥
Gives crashed P = ⊥
Gives out_of_fuel P = ⊥

pub Gives-bind :
    {A B : Type 0} (P : A → Type 0) (Q : B → Type 0) (m : Outcome A) (f : A → Outcome B)
    → Gives m P
    → ((a : A) → P a → Gives (f a) Q)
    → Gives (m >>= f) Q
Gives-bind P Q (done a) f p h = h a p
Gives-bind P Q exited f p h = absurd p
Gives-bind P Q crashed f p h = absurd p
Gives-bind P Q out_of_fuel f p h = absurd p

pub Gives-done :
    {A : Type 0} (P : A → Type 0) (m : Outcome A) → Gives m P → (a : A) × (m ≡ done a) × P a
Gives-done P (done a) p = (a, refl, p)
Gives-done P exited p = absurd p
Gives-done P crashed p = absurd p
Gives-done P out_of_fuel p = absurd p

pub Gives-mono :
    {A : Type 0} (P Q : A → Type 0) (m : Outcome A) → Gives m P → ((a : A) → P a → Q a) → Gives m Q
Gives-mono P Q (done a) p h = h a p
Gives-mono P Q exited p h = absurd p
Gives-mono P Q crashed p h = absurd p
Gives-mono P Q out_of_fuel p h = absurd p

pub Gives-both :
    {A : Type 0} (P Q : A → Type 0) (m : Outcome A)
    → Gives m P
    → Gives m Q
    → Gives m (λ a. P a × Q a)
Gives-both P Q (done a) p q = (p, q)
Gives-both P Q exited p q = absurd p
Gives-both P Q crashed p q = absurd p
Gives-both P Q out_of_fuel p q = absurd p
