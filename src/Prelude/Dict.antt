-- ===== src/Prelude/Dict.antt =====
-- Go's maps with string keys: association lists in which no key stands twice.
use Prim.Native.Nat.{◌+◌, ◌≤◌}
use mathlib.Core.Path.{◌≡◌, refl}
use mathlib.Core.Bool.{Bool}
use mathlib.Core.List.{List, [], ◌∷◌}
use mathlib.Core.Option.{Option, none, some}
use native.Mathlib.Omega.{arith}
use mattermost_plugin_matrix.Prelude.Tests.{if◌then◌else◌}
use mattermost_plugin_matrix.Prelude.Lists.{length}
use mattermost_plugin_matrix.Prelude.Texts.{Text, ◌==◌, eq_iff, eq_refl}

abbrev pub Dict {ℓ} : Type ℓ → Type ℓ
Dict V = List (Text × V)

module _ {ℓ} {V : Type ℓ} where
  -- `v, ok := m[k]`
  unfoldable pub get : Text → Dict V → Option V
  get k [] = none
  get k ((j, v) ∷ m) = if j == k then some v else get k m

  -- `m[k] = v`
  unfoldable pub put : Text → V → Dict V → Dict V
  put k v [] = (k, v) ∷ []
  put k v ((j, w) ∷ m) = if j == k then (k, v) ∷ m else (j, w) ∷ put k v m

  -- `delete(m, k)`
  unfoldable pub remove : Text → Dict V → Dict V
  remove k [] = []
  remove k ((j, v) ∷ m) = let rest = remove k m in if j == k then rest else (j, v) ∷ rest

  -- A loop over the map that deletes the entries whose value fails the test. No entry looks at
  -- another, so the order in which Go visits them does not matter.
  unfoldable pub retain : (V → Bool) → Dict V → Dict V
  retain p [] = []
  retain p ((j, v) ∷ m) = let rest = retain p m in if p v then (j, v) ∷ rest else rest

  -- No key stands twice.
  abbrev pub IsDict : Dict V → Type ℓ
  IsDict [] = Unit
  IsDict ((j, v) ∷ m) = (get j m ≡ none) × IsDict m

  pub get-put :
      (k j : Text) (v : V) (m : Dict V) → get j (put k v m) ≡ (if k == j then some v else get j m)
  unfolding get put
  get-put k j v [] = refl
  get-put k j v ((i, w) ∷ m) = ground (arith, eq_iff k j, eq_iff i k, eq_iff i j, get-put k j v m)

  pub get-put_self : (k : Text) (v : V) (m : Dict V) → get k (put k v m) ≡ some v
  get-put_self k v m = ground (arith, get-put k k v m, eq_refl k)

  pub get-remove :
      (k j : Text) (m : Dict V) → get j (remove k m) ≡ (if k == j then none else get j m)
  unfolding get remove
  get-remove k j [] = ground arith
  get-remove k j ((i, w) ∷ m) = ground (arith, eq_iff k j, eq_iff i k, eq_iff i j, get-remove k j m)

  abbrev pub filtered : (V → Bool) → Option V → Option V
  filtered p none = none
  filtered p (some v) = if p v then some v else none

  get-retain-none :
      (p : V → Bool) (j : Text) (m : Dict V) → get j m ≡ none → get j (retain p m) ≡ none
  unfolding get retain
  get-retain-none p j [] h = refl
  get-retain-none p j ((i, w) ∷ m) h = ground (arith, get-retain-none p j m)

  pub get-retain :
      (p : V → Bool) (j : Text) (m : Dict V) → IsDict m → get j (retain p m) ≡ filtered p (get j m)
  unfolding get retain
  get-retain p j [] h = refl
  get-retain p j ((i, w) ∷ m) h =
      ground (arith, eq_iff i j, get-retain p j m h.1, get-retain-none p j m)

  pub put-IsDict : (k : Text) (v : V) (m : Dict V) → IsDict m → IsDict (put k v m)
  unfolding get put
  put-IsDict k v [] h = (refl, tt)
  put-IsDict k v ((i, w) ∷ m) h =
      ground (arith, eq_iff i k, get-put k i v m, eq_iff k i, put-IsDict k v m h.1)

  pub remove-IsDict : (k : Text) (m : Dict V) → IsDict m → IsDict (remove k m)
  unfolding get remove
  remove-IsDict k [] h = tt
  remove-IsDict k ((i, w) ∷ m) h = ground (arith, get-remove k i m, remove-IsDict k m h.1)

  pub retain-IsDict : (p : V → Bool) (m : Dict V) → IsDict m → IsDict (retain p m)
  unfolding get retain
  retain-IsDict p [] h = tt
  retain-IsDict p ((i, w) ∷ m) h = ground (arith, get-retain-none p i m, retain-IsDict p m h.1)

  pub length-put-le : (k : Text) (v : V) (m : Dict V) → length (put k v m) ≤ length m + 1
  unfolding put
  length-put-le k v [] = omega arith
  length-put-le k v ((i, w) ∷ m) = ground (arith, length-put-le k v m)

  pub length-put :
      (k : Text) (v w : V) (m : Dict V) → get k m ≡ some w → length (put k v m) ≡ length m
  unfolding get put
  length-put k v w [] h = ground arith
  length-put k v w ((i, x) ∷ m) h = ground (arith, length-put k v w m)

  pub length-put_new :
      (k : Text) (v : V) (m : Dict V) → get k m ≡ none → length (put k v m) ≡ length m + 1
  unfolding get put
  length-put_new k v [] h = omega arith
  length-put_new k v ((i, x) ∷ m) h = ground (arith, length-put_new k v m)

  pub length-remove-le : (k : Text) (m : Dict V) → length (remove k m) ≤ length m
  unfolding remove
  length-remove-le k [] = omega arith
  length-remove-le k ((i, x) ∷ m) = ground (arith, length-remove-le k m)

  pub length-retain-le : (p : V → Bool) (m : Dict V) → length (retain p m) ≤ length m
  unfolding retain
  length-retain-le p [] = omega arith
  length-retain-le p ((i, x) ∷ m) = ground (arith, length-retain-le p m)

pub ruleset dict_laws = (get-put, get-remove)
