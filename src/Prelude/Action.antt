-- ===== src/Prelude/Action.antt =====
-- A method call on an object: it takes the fields, and gives the result or the exception together
-- with the fields afterwards, since what was written before a raise stays written.
use digital_fte_agent.Prelude.{Bool, if◌then◌else◌}
use digital_fte_agent.Prelude.Values.{Exception, Result, ok, raise}

abbrev pub Action : Type 0 → Type 0 → Type 0
Action S A = S → Result A × S

infixl 5 ◌>>=◌ ◌>>◌
abbrev pub ◌>>=◌ : {S A B : Type 0} → Action S A → (A → Action S B) → Action S B
◌>>=◌ m f s = let (r, s') = m s in elim r [ ok a ↦ f a s' | raise e ↦ (raise e, s') ]

abbrev pub ◌>>◌ : {S A B : Type 0} → Action S A → Action S B → Action S B
m >> k = m >>= λ _. k

module _ {S A : Type 0} where
  abbrev pub pure : A → Action S A
  pure a s = (ok a, s)

  abbrev pub throw : Exception → Action S A
  throw e s = (raise e, s)

  -- A check that reads no field.
  abbrev pub check : Result A → Action S A
  check r s = (r, s)

  abbrev pub gets : (S → A) → Action S A
  gets f s = (ok (f s), s)

module _ {S : Type 0} where
  abbrev pub modify : (S → S) → Action S (Unit {0})
  modify f s = (ok tt, f s)

  -- `if test: raise e`
  abbrev pub raise_if : Bool → Exception → Action S (Unit {0})
  raise_if test e s = (if test then raise e else ok tt, s)
