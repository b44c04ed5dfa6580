-- ===== src/Base/Assoc.antt =====
-- A Go map as an association list, oldest key first: a write to a key that is there replaces its
-- value in place.
use mathlib.Core.Path.{◌≡◌, refl}
use mathlib.Core.Logic.{ite}
use mathlib.Core.Option.{Option, none, some}
use mathlib.Core.List.{List, [], ◌∷◌}
use native.Mathlib.Omega.{arith}

module _ {ℓ} {K V : Type ℓ} (d : Discrete K) where
  unfoldable pub get : K → List (K × V) → Option V
  get k [] = none
  get k ((j, v) ∷ m) = ite (d j k) (some v) (get k m)

  unfoldable pub put : K → V → List (K × V) → List (K × V)
  put k v [] = (k, v) ∷ []
  put k v ((j, w) ∷ m) = ite (d j k) ((k, v) ∷ m) ((j, w) ∷ put k v m)

  pub get-put :
      (k j : K) (v : V) (m : List (K × V)) → get j (put k v m) ≡ ite (d k j) (some v) (get j m)
  unfolding get put
  get-put k j v [] = refl
  get-put k j v ((i, w) ∷ m) = ground (arith, get-put k j v m)

  pub get-put_self : (k : K) (v : V) (m : List (K × V)) → get k (put k v m) ≡ some v
  get-put_self k v m = ground (arith, get-put k k v m)

  pub get-put_ne : (k j : K) (v : V) (m : List (K × V)) → (k ≡ j → ⊥) → get j (put k v m) ≡ get j m
  get-put_ne k j v m apart = ground (arith, get-put k j v m)
