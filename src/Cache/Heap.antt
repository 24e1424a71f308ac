-- ===== src/Cache/Heap.antt =====
-- Lemmas on the linked list of server/cache.go.
use mattermost_plugin_matrix.Prelude.{
  ℕ, ◌+◌, ◌≤◌, ◌≡◌, refl, true, false, none, some, List, [], ◌∷◌, length, eqb, if◌then◌else◌, arith,
}
use mattermost_plugin_matrix.Cache.{unlink, back, holds}

-- No element stands twice.
abbrev pub IsChain : List ℕ → Type 0
IsChain [] = Unit
IsChain (d ∷ l) = (holds d l ≡ false) × IsChain l

pub holds-unlink :
    (e d : ℕ) (l : List ℕ) → holds d (unlink e l) ≡ (if eqb e d then false else holds d l)
unfolding unlink holds
holds-unlink e d [] = ground arith
holds-unlink e d (c ∷ l) = ground (arith, holds-unlink e d l)

pub unlink-IsChain : (e : ℕ) (l : List ℕ) → IsChain l → IsChain (unlink e l)
unfolding unlink holds
unlink-IsChain e [] h = tt
unlink-IsChain e (c ∷ l) h = ground (arith, holds-unlink e c l, unlink-IsChain e l h.1)

pub unlink_absent : (e : ℕ) (l : List ℕ) → holds e l ≡ false → unlink e l ≡ l
unfolding unlink holds
unlink_absent e [] h = refl
unlink_absent e (c ∷ l) h = ground (arith, unlink_absent e l)

pub length-unlink :
    (e : ℕ) (l : List ℕ) → IsChain l → holds e l ≡ true → length (unlink e l) + 1 ≡ length l
unfolding unlink holds
length-unlink e [] u h = ground arith
length-unlink e (c ∷ l) u h = ground (arith, length-unlink e l u.1, unlink_absent e l)

pub length-unlink-le : (e : ℕ) (l : List ℕ) → length (unlink e l) ≤ length l
unfolding unlink
length-unlink-le e [] = omega arith
length-unlink-le e (c ∷ l) = ground (arith, length-unlink-le e l)

pub holds-back : (l : List ℕ) (e : ℕ) → back l ≡ some e → holds e l ≡ true
unfolding back holds
holds-back [] e h = ground arith
holds-back (d ∷ []) e h = ground arith
holds-back (d ∷ c ∷ l) e h = ground (arith, holds-back (c ∷ l) e h)

pub back-cons : (d : ℕ) (l : List ℕ) → (e : ℕ) × (back (d ∷ l) ≡ some e)
unfolding back
back-cons d [] = (d, refl)
back-cons d (c ∷ l) = back-cons c l

pub back-none : (l : List ℕ) → back l ≡ none → length l ≡ 0
unfolding back
back-none [] h = refl
back-none (d ∷ []) h = ground arith
back-none (d ∷ c ∷ l) h = absurd (ground (arith, back-none (c ∷ l)))
