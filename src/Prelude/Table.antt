-- ===== src/Prelude/Table.antt =====
-- A SQLite table with a numeric PRIMARY KEY, as rows in order of insertion. At most one row has a
-- given key, so a statement that names the key touches the first row that has it.
use Prim.Native.Nat.{ℕ}
use mathlib.Core.Path.{◌≡◌}
use mathlib.Core.Logic.{◌≢◌}
use mathlib.Core.Option.{Option, none, some}
use mathlib.Core.Bool.{true}
use mathlib.Core.List.{List, [], ◌∷◌}
use native.Mathlib.Omega.{arith}
use rule2llm_orch_lab.Prelude.Tests.{◌==◌, is_some, if◌then◌else◌}

abbrev pub Table {ℓ} : Type ℓ → Type ℓ
Table V = List (ℕ × V)

abbrev pub on_row {ℓ} : {V : Type ℓ} → (V → V) → Option V → Option V
on_row f none = none
on_row f (some v) = some (f v)

module _ {ℓ} {V : Type ℓ} where
  -- SELECT … WHERE key = k
  unfoldable pub get : ℕ → Table V → Option V
  get k [] = none
  get k ((j, v) ∷ t) = let rest = get k t in if k == j then some v else rest

  -- UPDATE … WHERE key = k
  unfoldable pub update : ℕ → (V → V) → Table V → Table V
  update k f [] = []
  update k f ((j, v) ∷ t) =
      let rest = update k f t in if k == j then (j, f v) ∷ t else (j, v) ∷ rest

  -- INSERT, of a key that the table does not have
  unfoldable pub insert : ℕ → V → Table V → Table V
  insert k v [] = (k, v) ∷ []
  insert k v (e ∷ t) = e ∷ insert k v t

  pub get-update :
      (j k : ℕ) (f : V → V) (t : Table V)
      → get j (update k f t) ≡ (if j == k then on_row f (get j t) else get j t)
  unfolding get update
  get-update j k f [] = ground arith
  get-update j k f ((i, v) ∷ t) = ground (arith, get-update j k f t)

  pub get-update_self :
      (k : ℕ) (f : V → V) (t : Table V) → get k (update k f t) ≡ on_row f (get k t)
  get-update_self k f t = ground (arith, get-update k k f t)

  pub get-update_ne : (j k : ℕ) (f : V → V) (t : Table V) → j ≢ k → get j (update k f t) ≡ get j t
  get-update_ne j k f t h = ground (arith, get-update j k f t)

  pub get-insert_self :
      (k : ℕ) (v : V) (t : Table V) → get k t ≡ none → get k (insert k v t) ≡ some v
  unfolding get insert
  get-insert_self k v [] h = ground arith
  get-insert_self k v (e ∷ t) h = ground (arith, get-insert_self k v t)

  pub get-insert_ne : (j k : ℕ) (v : V) (t : Table V) → j ≢ k → get j (insert k v t) ≡ get j t
  unfolding get insert
  get-insert_ne j k v [] h = ground arith
  get-insert_ne j k v (e ∷ t) h = ground (arith, get-insert_ne j k v t h)

  -- A new row hides no row that was there.
  pub get-insert_old :
      (j k : ℕ) (v w : V) (t : Table V) → get j t ≡ some w → get j (insert k v t) ≡ some w
  unfolding get insert
  get-insert_old j k v w [] h = ground arith
  get-insert_old j k v w (e ∷ t) h = ground (arith, get-insert_old j k v w t)

  pub get-insert_kept :
      (j k : ℕ) (v : V) (t : Table V)
      → is_some (get j t) ≡ true
      → is_some (get j (insert k v t)) ≡ true
  unfolding get insert
  get-insert_kept j k v [] h = ground arith
  get-insert_kept j k v (e ∷ t) h = ground (arith, get-insert_kept j k v t)
