-- ===== src/Prelude/Results.antt =====
-- A Python call ends with a value or with an exception. A method that works on a connection gives
-- back the database too, also after a raise: only `transaction` undoes what was written.
use mathlib.Core.Path.{◌≡◌, refl}
use mathlib.Core.Bool.{Bool, true, false}
use mathlib.Core.Option.{Option, none, some}

-- The exceptions that the modelled code raises, or lets pass: pydantic's `ValidationError`, the
-- executor's `RuntimeError`, `ValueError` for an unknown task, `UnsupportedEventError`, SQLite's
-- `IntegrityError`, a `TypeError` from reading a row that is not there, `LLMRuntimeError`, and an `AttributeError` from a JSON value that is
-- no object.
pub data Error : Type 0 where
  contract_error not_applicable unknown_task unsupported_event integrity_error : Error
  no_row llm_runtime_error attribute_error type_error : Error

pub data Result {ℓ} (A : Type ℓ) : Type ℓ where
  ok : A → Result A
  err : Error → Result A

-- The call returns, and its value has the property.
abbrev pub Returns {ℓ} : {A : Type ℓ} → (A → Type 0) → Result A → Type 0
Returns P (ok a) = P a
Returns P (err e) = ⊥

pub Returns-ok {ℓ} :
    {A : Type ℓ} (P : A → Type 0) (r : Result A) → Returns P r → (a : A) × (r ≡ ok a) × P a
Returns-ok P (ok a) h = (a, refl, h)
Returns-ok P (err e) h = absurd h

abbrev pub Action {ℓ} : Type 0 → Type ℓ → Type ℓ
Action S A = S → Result A × S

module _ {ℓ} {S : Type 0} {A : Type ℓ} where
  abbrev pub pure : A → Action S A
  pure a s = (ok a, s)

  abbrev pub raise : Error → Action S A
  raise e s = (err e, s)

  abbrev pub gets : (S → A) → Action S A
  gets f s = (ok (f s), s)

  abbrev pub or_raise : Error → Option A → Action S A
  or_raise e none = raise e
  or_raise e (some a) = pure a

  -- `with transaction(connection)`: a raise rolls back, all else commits.
  abbrev pub settle : Result A × S → S → Result A × S
  settle (ok a, s') s = (ok a, s')
  settle (err e, s') s = (err e, s)

  abbrev pub transaction : Action S A → Action S A
  transaction m s = settle (m s) s

module _ {S : Type 0} where
  abbrev pub modify : (S → S) → Action S (Unit {0})
  modify f s = (ok tt, f s)

  abbrev pub raise_if : Bool → Error → Action S (Unit {0})
  raise_if true e s = (err e, s)
  raise_if false e s = (ok tt, s)

infixl 5 ◌>>=◌ ◌>>◌
abbrev pub ◌>>=◌ {ℓ κ} :
    {S : Type 0} {A : Type ℓ} {B : Type κ} → Action S A → (A → Action S B) → Action S B
◌>>=◌ m f s = let (r, s') = m s in elim r [ ok a ↦ f a s' | err e ↦ (err e, s') ]

abbrev pub ◌>>◌ {ℓ κ} :
    {S : Type 0} {A : Type ℓ} {B : Type κ} → Action S A → Action S B → Action S B
m >> k = m >>= λ _. k

-- The action returns, and its value and the state that it leaves have the property.
abbrev pub Post {ℓ} : {S : Type 0} {A : Type ℓ} → (A → S → Type 0) → Result A × S → Type 0
Post P (ok a, s) = P a s
Post P (err e, s) = ⊥

module _ {ℓ} {S : Type 0} {A : Type ℓ} (P : A → S → Type 0) where
  Post-settle : (r : Result A × S) (s : S) → Post P r → Post P (settle r s)
  Post-settle (ok a, s') s h = h
  Post-settle (err e, s') s h = h

  -- What holds after the body holds after the commit.
  pub Post-transaction : (m : Action S A) (s : S) → Post P (m s) → Post P (transaction m s)
  Post-transaction m s h = Post-settle (m s) s h

module _ {ℓ} {S : Type 0} {A : Type ℓ} (P Q : A → S → Type 0) where
  pub Post-mono : (r : Result A × S) → ((a : A) (s : S) → P a s → Q a s) → Post P r → Post Q r
  Post-mono (ok a, s) f h = f a s h
  Post-mono (err e, s) f h = h

-- The state after an action that raised nothing, or any state that a roll-back left alone.
pub Post-state {ℓ} :
    {S : Type 0} {A : Type ℓ} (P : A → S → Type 0) (r : Result A × S)
    → Post P r
    → (a : A) × (r.0 ≡ ok a) × P a r.1
Post-state P (ok a, s) h = (a, refl, h)
Post-state P (err e, s) h = absurd h

module _ {ℓ κ} {S : Type 0} {A : Type ℓ} {B : Type κ} (P : A → S → Type 0)
    (Q : B → S → Type 0) where
  Post-map_result :
      (r : Result A × S) (f : A → B) (s : S)
      → ((a : A) (t : S) → P a t → Q (f a) t)
      → Post P r
      → Post Q (◌>>=◌ (λ (t : S). r) (λ a. pure (f a)) s)
  Post-map_result (ok a, t) f s k h = k a t h
  Post-map_result (err e, t) f s k h = h

  -- A value that is only repackaged at the end
  pub Post-map :
      (m : Action S A) (f : A → B) (s : S)
      → ((a : A) (t : S) → P a t → Q (f a) t)
      → Post P (m s)
      → Post Q ((m >>= λ a. pure (f a)) s)
  Post-map m f s = Post-map_result (m s) f s

module _ {ℓ κ} {S : Type 0} {A : Type ℓ} {B : Type κ} (P : A → S → Type 0)
    (Q : B → S → Type 0) where
  Post-bind_result :
      (r : Result A × S) (f : A → Action S B) (s : S)
      → Post P r
      → ((a : A) (t : S) → P a t → Post Q (f a t))
      → Post Q (◌>>=◌ (λ (t : S). r) f s)
  Post-bind_result (ok a, t) f s h k = k a t h
  Post-bind_result (err e, t) f s h k = absurd h

  -- The rule for a sequence of actions
  pub Post-bind :
      (m : Action S A) (f : A → Action S B) (s : S)
      → Post P (m s)
      → ((a : A) (t : S) → P a t → Post Q (f a t))
      → Post Q ((m >>= f) s)
  Post-bind m f s = Post-bind_result (m s) f s

-- A fact about the state that is left, whatever the result
pub Post-with {ℓ} :
    {S : Type 0} {A : Type ℓ} (P : A → S → Type 0) (F : S → Type 0) (r : Result A × S)
    → Post P r
    → F r.1
    → Post (λ a t. P a t × F t) r
Post-with P F (ok a, t) h f = (h, f)
Post-with P F (err e, t) h f = absurd h

pub Post-both {ℓ} :
    {S : Type 0} {A : Type ℓ} (P Q : A → S → Type 0) (r : Result A × S)
    → Post P r
    → Post Q r
    → Post (λ a t. P a t × Q a t) r
Post-both P Q (ok a, t) h k = (h, k)
Post-both P Q (err e, t) h k = absurd h

-- If the action returns, its value and the state that it leaves have the property.
abbrev pub Unless {ℓ} : {S : Type 0} {A : Type ℓ} → (A → S → Type 0) → Result A × S → Type 0
Unless P (ok a, s) = P a s
Unless P (err e, s) = Unit
