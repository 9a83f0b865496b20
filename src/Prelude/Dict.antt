-- ===== src/Prelude/Dict.antt =====
-- Python's `dict` with text keys: entries in insertion order, a key kept at its place when it is
-- written again.
use Prim.Native.String.{String}
use mathlib.Core.Path.{◌≡◌, refl}
use mathlib.Core.Logic.{◌≢◌}
use mathlib.Core.Option.{Option, none, some}
use mathlib.Core.List.{List, [], ◌∷◌}
use native.Mathlib.Omega.{arith}
use text.Mathlib.Text.{◌==◌}
use text.Mathlib.TextEquality.{eq_iff}
use text.Mathlib.TextPositions.{eq_refl}
use mathlib.Core.Bool.{Bool}
use portfolio_copilot.Prelude.Tests.{is_some, if◌then◌else◌}

abbrev pub Dict {ℓ} : Type ℓ → Type ℓ
Dict V = List (String × V)

module _ {ℓ} {V : Type ℓ} where
  -- `d.get(k)`
  unfoldable pub get : String → Dict V → Option V
  get k [] = none
  get k ((j, v) ∷ d) = if j == k then some v else get k d

  -- `d[k] = v`
  unfoldable pub put : String → V → Dict V → Dict V
  put k v [] = (k, v) ∷ []
  put k v ((j, w) ∷ d) = if j == k then (j, v) ∷ d else (j, w) ∷ put k v d

  -- `d.pop(k, None)`
  unfoldable pub pop : String → Dict V → Dict V
  pop k [] = []
  pop k ((j, w) ∷ d) = let rest = pop k d in if j == k then rest else (j, w) ∷ rest

  -- `d.values()`
  unfoldable pub values : Dict V → List V
  values [] = []
  values ((k, v) ∷ d) = v ∷ values d

  -- `k in d`
  abbrev pub contains : String → Dict V → Bool
  contains k d = is_some (get k d)

  -- `d.setdefault(k, v)`
  unfoldable pub set_default : String → V → Dict V → Dict V
  set_default k v d = elim (get k d) [ none ↦ put k v d | some _ ↦ d ]

  pub get-put :
      (k j : String) (v : V) (d : Dict V) → get j (put k v d) ≡ (if k == j then some v else get j d)
  unfolding get put
  get-put k j v [] = refl
  get-put k j v ((i, w) ∷ d) = ground (arith, eq_iff k j, eq_iff i k, eq_iff i j, get-put k j v d)

  pub get-pop : (k j : String) (d : Dict V) → get j (pop k d) ≡ (if k == j then none else get j d)
  unfolding get pop
  get-pop k j [] = ground arith
  get-pop k j ((i, w) ∷ d) = ground (arith, eq_iff k j, eq_iff i k, eq_iff i j, get-pop k j d)

  pub get-put_self : (k : String) (v : V) (d : Dict V) → get k (put k v d) ≡ some v
  get-put_self k v d = simp (get-put, eq_refl)

  pub get-put_ne : (k j : String) (v : V) (d : Dict V) → k ≢ j → get j (put k v d) ≡ get j d
  get-put_ne k j v d h = rw get-put (ground (arith, eq_iff k j))

module _ {ℓ} {V : Type ℓ} where
  pub set_default-new :
      (k : String) (v : V) (d : Dict V) → get k d ≡ none → set_default k v d ≡ put k v d
  unfolding set_default
  set_default-new k v d h = rw (h, set_default)

  pub set_default-old :
      (k : String) (v : V) {w : V} (d : Dict V) → get k d ≡ some w → set_default k v d ≡ d
  unfolding set_default
  set_default-old k v d h = rw (h, set_default)

pub ruleset dict_laws = (get-put, get-pop, eq_refl)
