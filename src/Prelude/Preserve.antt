-- ===== src/Prelude/Preserve.antt =====
-- A fact about the state that an action keeps, whether it returns or raises.
use mathlib.Core.Path.{◌≡◌}
use native.Mathlib.Omega.{arith}
use rule2llm_orch_lab.Prelude.Results.{Result, ok, err, Action, Unless, settle, transaction, ◌>>=◌}

abbrev pub Keeps {ℓ} : {S : Type 0} {A : Type ℓ} → (S → Type 0) → Action S A → Type 0
Keeps {S} R m = (s : S) → R s → R (m s).1

module _ {ℓ κ} {S : Type 0} {A : Type ℓ} {B : Type κ} (R : S → Type 0) where
  Keeps-bind_result :
      (r : Result A × S) (f : A → Action S B) (s : S)
      → R r.1
      → ((a : A) → Keeps R (f a))
      → R (◌>>=◌ (λ (t : S). r) f s).1
  Keeps-bind_result (ok a, t) f s h k = k a t h
  Keeps-bind_result (err e, t) f s h k = h

  pub Keeps-bind :
      (m : Action S A) (f : A → Action S B)
      → Keeps R m
      → ((a : A) → Keeps R (f a))
      → Keeps R (m >>= f)
  Keeps-bind m f h k s r = Keeps-bind_result (m s) f s (h s r) k

module _ {ℓ} {S : Type 0} {A : Type ℓ} (R : S → Type 0) where
  pub Keeps-settle : (r : Result A × S) (s : S) → R s → R r.1 → R (settle r s).1
  Keeps-settle (ok a, t) s old new = new
  Keeps-settle (err e, t) s old new = old

  pub Keeps-transaction : (m : Action S A) → Keeps R m → Keeps R (transaction m)
  Keeps-transaction m h s r = Keeps-settle (m s) s r (h s r)

-- A last action that turns one fact into another if it returns
module _ {ℓ κ} {S : Type 0} {A : Type ℓ} {B : Type κ} (R : S → Type 0) (Q : B → S → Type 0) where
  Unless-bind_result :
      (r : Result A × S) (f : A → Action S B) (s : S)
      → R r.1
      → ((a : A) (t : S) → R t → Unless Q (f a t))
      → Unless Q (◌>>=◌ (λ (t : S). r) f s)
  Unless-bind_result (ok a, t) f s h k = k a t h
  Unless-bind_result (err e, t) f s h k = tt

  pub Unless-bind :
      (m : Action S A) (f : A → Action S B) (s : S)
      → Keeps R m
      → ((a : A) (t : S) → R t → Unless Q (f a t))
      → R s
      → Unless Q ((m >>= f) s)
  Unless-bind m f s h k r = Unless-bind_result (m s) f s (h s r) k

module _ {ℓ} {S : Type 0} {A : Type ℓ} (Q : S → Type 0) where
  pub Unless-state : (r : Result A × S) → Q r.1 → Unless (λ a t. Q t) r
  Unless-state (ok a, t) q = q
  Unless-state (err e, t) q = tt

  -- A transaction that raises is undone.
  pub Unless-settle : (r : Result A × S) (s : S) → Q s → Unless (λ a t. Q t) r → Q (settle r s).1
  Unless-settle (ok a, t) s old new = new
  Unless-settle (err e, t) s old new = old

-- An action that returned has run both of its parts.
module _ {ℓ κ} {S : Type 0} {A : Type ℓ} {B : Type κ} where
  bind-parts_result :
      (r : Result A × S) (f : A → Action S B) (s : S) (b : B) (t : S)
      → ◌>>=◌ (λ (t : S). r) f s ≡ (ok b, t)
      → (a : A) × (f a r.1 ≡ (ok b, t))
  bind-parts_result (ok a, s') f s b t e = (a, e)
  bind-parts_result (err e', s') f s b t e = ground arith

  pub bind-parts :
      (m : Action S A) (f : A → Action S B) (s : S) (b : B) (t : S)
      → (m >>= f) s ≡ (ok b, t)
      → (a : A) × (f a (m s).1 ≡ (ok b, t))
  bind-parts m f s b t e = bind-parts_result (m s) f s b t e
