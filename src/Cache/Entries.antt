-- ===== src/Cache/Entries.antt =====
-- Lemmas on the entries that the elements of the list in server/cache.go point to.
use mattermost_plugin_matrix.Prelude.{
  ℕ, zero, suc, ◌≤◌, ◌≡◌, ◌≢◌, refl, ap, true, false, none, some, List, [], ◌∷◌, length, take, map,
  eqb, eqb_iff, arith, Text, eq_iff, inl, inr, Bool-cases,
}
use mattermost_plugin_matrix.Cache.{Entry, unlink, back, holds, write}
use mattermost_plugin_matrix.Cache.Heap.{IsChain, holds-back}
use mattermost_plugin_matrix.Cache.Spec.{find, drop_key}

-- In a list of elements, `e` is the one with key `k`.
abbrev pub IsOnly : (ℕ → Entry) → Text → ℕ → List ℕ → Type 0
IsOnly heap k e l = (d : ℕ) → holds d l ≡ true → (heap d).key ≡ k → d ≡ e

IsOnly-tail :
    (heap : ℕ → Entry) (k : Text) (e d : ℕ) (l : List ℕ)
    → IsOnly heap k e (d ∷ l)
    → IsOnly heap k e l
unfolding holds
IsOnly-tail heap k e d l only c h p = only c (ground arith) p

head_listed : (d : ℕ) (l : List ℕ) → holds d (d ∷ l) ≡ true
unfolding holds
head_listed d l = ground (arith, eqb_iff d d)

pub find-hit :
    (heap : ℕ → Entry) (k : Text) (e : ℕ) (l : List ℕ)
    → (heap e).key ≡ k
    → holds e l ≡ true
    → IsOnly heap k e l
    → find k (map heap l) ≡ some (heap e)
unfolding holds find
find-hit heap k e [] mine h only = ground arith
find-hit heap k e (d ∷ l) mine h only = elim (Bool-cases (eqb d e)) [
  | inl here ↦ ground (arith, eq_iff (heap d).key k, eqb_iff d e)
  | inr there ↦ ground (
    arith,
    eq_iff (heap d).key k,
    eqb_iff d e,
    only d (head_listed d l),
    find-hit heap k e l mine (ground arith) (IsOnly-tail heap k e d l only),
  )
]

-- No element of the list has the key `k`.
abbrev pub IsFree : (ℕ → Entry) → Text → List ℕ → Type 0
IsFree heap k l = (d : ℕ) → holds d l ≡ true → (heap d).key ≢ k

IsFree-tail :
    (heap : ℕ → Entry) (k : Text) (d : ℕ) (l : List ℕ) → IsFree heap k (d ∷ l) → IsFree heap k l
unfolding holds
IsFree-tail heap k d l free c h = free c (ground arith)

pub find-miss :
    (heap : ℕ → Entry) (k : Text) (l : List ℕ) → IsFree heap k l → find k (map heap l) ≡ none
unfolding find
find-miss heap k [] free = refl
find-miss heap k (d ∷ l) free = ground (
  arith,
  eq_iff (heap d).key k,
  free d (head_listed d l),
  find-miss heap k l (IsFree-tail heap k d l free),
)

pub drop_key-miss :
    (heap : ℕ → Entry) (k : Text) (l : List ℕ)
    → IsFree heap k l
    → drop_key k (map heap l) ≡ map heap l
unfolding drop_key
drop_key-miss heap k [] free = refl
drop_key-miss heap k (d ∷ l) free = ground (
  arith,
  eq_iff (heap d).key k,
  free d (head_listed d l),
  drop_key-miss heap k l (IsFree-tail heap k d l free),
)

-- To unlink the element of a key is to drop the key.
pub map-unlink :
    (heap : ℕ → Entry) (k : Text) (e : ℕ) (l : List ℕ)
    → (heap e).key ≡ k
    → IsOnly heap k e l
    → map heap (unlink e l) ≡ drop_key k (map heap l)
unfolding unlink drop_key
map-unlink heap k e [] mine only = refl
map-unlink heap k e (d ∷ l) mine only = ground (
  arith,
  eq_iff (heap d).key k,
  eqb_iff d e,
  only d (head_listed d l),
  map-unlink heap k e l mine (IsOnly-tail heap k e d l only),
)

-- To unlink the last element is to keep the others.
pub map-unlink-back :
    (heap : ℕ → Entry) (l : List ℕ) (e n : ℕ)
    → back l ≡ some e
    → IsChain l
    → length l ≡ suc n
    → map heap (unlink e l) ≡ take n (map heap l)
unfolding back unlink holds
map-unlink-back heap [] e n h u p = ground arith
map-unlink-back heap (d ∷ []) e zero h u p = ground (arith, eqb_iff d e)
map-unlink-back heap (d ∷ []) e (suc n) h u p = absurd (omega arith)
map-unlink-back heap (d ∷ c ∷ l) e zero h u p = absurd (omega arith)
map-unlink-back heap (d ∷ c ∷ l) e (suc n) h u p = ground (
  arith,
  eqb_iff d e,
  holds-back (c ∷ l) e h,
  u.0,
  map-unlink-back heap (c ∷ l) e n h u.1 (omega arith),
)

-- A write to an element outside the list shows nowhere.
pub map-write_absent :
    (heap : ℕ → Entry) (e : ℕ) (x : Entry) (l : List ℕ)
    → holds e l ≡ false
    → map (write heap e x) l ≡ map heap l
unfolding holds write
map-write_absent heap e x [] h = refl
map-write_absent heap e x (d ∷ l) h =
    ground (arith, eqb_iff d e, eqb_iff e d, map-write_absent heap e x l)

pub length-map : (heap : ℕ → Entry) (l : List ℕ) → length (map heap l) ≡ length l
length-map heap [] = refl
length-map heap (d ∷ l) = ap suc (length-map heap l)

pub take_all : (n : ℕ) (l : List Entry) → length l ≤ n → take n l ≡ l
take_all zero [] h = refl
take_all zero (x ∷ l) h = absurd (omega arith)
take_all (suc n) [] h = refl
take_all (suc n) (x ∷ l) h = ap (◌∷◌ x) (take_all n l (omega arith))
