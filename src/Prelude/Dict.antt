-- ===== src/Prelude/Dict.antt =====
-- Python's `dict` with ids as keys: an association list in insertion order. A write to a present
-- key keeps its place, and a new key goes last.
use Prim.Native.Nat.{ℕ, suc}
use mathlib.Core.Path.{◌≡◌, refl}
use mathlib.Core.List.{List, [], ◌∷◌}
use mathlib.Core.Option.{Option, none, some}
use native.Mathlib.Omega.{arith}
use codeng.Prelude.Lists.{length}
use codeng.Prelude.Tests.{◌==◌, if◌then◌else◌}

abbrev pub Dict {ℓ} : Type ℓ → Type ℓ
Dict V = List (ℕ × V)

module _ {ℓ} {V : Type ℓ} where
  -- `d.get(k)`
  unfoldable pub get : ℕ → Dict V → Option V
  get k [] = none
  get k ((j, v) ∷ d) = if j == k then some v else get k d

  -- `d[k] = v`
  unfoldable pub put : ℕ → V → Dict V → Dict V
  put k v [] = (k, v) ∷ []
  put k v ((j, w) ∷ d) = if j == k then (k, v) ∷ d else (j, w) ∷ put k v d

  -- `d.pop(k, None)`
  unfoldable pub pop : ℕ → Dict V → Dict V
  pop k [] = []
  pop k ((j, w) ∷ d) = let rest = pop k d in if j == k then rest else (j, w) ∷ rest

  -- the keys, in order
  unfoldable pub keys : Dict V → List ℕ
  keys [] = []
  keys ((j, w) ∷ d) = j ∷ keys d

  -- the values, in order
  unfoldable pub values : Dict V → List V
  values [] = []
  values ((j, w) ∷ d) = w ∷ values d

  -- a loop over `d.values()` that mutates each value
  unfoldable pub map_values : (V → V) → Dict V → Dict V
  map_values f [] = []
  map_values f ((j, w) ∷ d) = (j, f w) ∷ map_values f d

  -- a mutation of the object under a key, if there is one
  unfoldable pub adjust : ℕ → (V → V) → Dict V → Dict V
  adjust k f [] = []
  adjust k f ((j, w) ∷ d) = if j == k then (j, f w) ∷ d else (j, w) ∷ adjust k f d

  pub get-put :
      (k j : ℕ) (v : V) (d : Dict V) → get j (put k v d) ≡ (if k == j then some v else get j d)
  unfolding get put
  get-put k j v [] = refl
  get-put k j v ((i, w) ∷ d) = ground (arith, get-put k j v d)

  pub get-pop : (k j : ℕ) (d : Dict V) → get j (pop k d) ≡ (if k == j then none else get j d)
  unfolding get pop
  get-pop k j [] = ground arith
  get-pop k j ((i, w) ∷ d) = ground (arith, get-pop k j d)

  abbrev pub map_option : (V → V) → Option V → Option V
  map_option f none = none
  map_option f (some v) = some (f v)

  pub get-map_values :
      (f : V → V) (j : ℕ) (d : Dict V) → get j (map_values f d) ≡ map_option f (get j d)
  unfolding get map_values
  get-map_values f j [] = refl
  get-map_values f j ((i, w) ∷ d) = ground (arith, get-map_values f j d)

  pub get-adjust :
      (k : ℕ) (f : V → V) (j : ℕ) (d : Dict V)
      → get j (adjust k f d) ≡ (if k == j then map_option f (get j d) else get j d)
  unfolding get adjust
  get-adjust k f j [] = ground arith
  get-adjust k f j ((i, w) ∷ d) = ground (arith, get-adjust k f j d)

  pub length-adjust : (k : ℕ) (f : V → V) (d : Dict V) → length (adjust k f d) ≡ length d
  unfolding adjust
  length-adjust k f [] = refl
  length-adjust k f ((i, w) ∷ d) = ground (arith, length-adjust k f d)

  pub length-put_new :
      (k : ℕ) (v : V) (d : Dict V) → get k d ≡ none → length (put k v d) ≡ suc (length d)
  unfolding get put
  length-put_new k v [] h = refl
  length-put_new k v ((i, w) ∷ d) h = ground (arith, length-put_new k v d)

  pub keys-adjust : (k : ℕ) (f : V → V) (d : Dict V) → keys (adjust k f d) ≡ keys d
  unfolding keys adjust
  keys-adjust k f [] = refl
  keys-adjust k f ((i, w) ∷ d) = ground (arith, keys-adjust k f d)
