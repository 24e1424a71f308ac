-- ===== src/Cache/Evict.antt =====
-- `EvictExpired` of server/cache.go drops exactly the expired entries.
use mattermost_plugin_matrix.Prelude.{
  ℕ, ◌+◌, ◌≡◌, refl, ap, sym, ◌∙◌, Bool, true, false, not, ◌&&◌, List, [], ◌∷◌, keep, tally, map,
  eqb, eqb_iff, if◌then◌else◌, arith, inl, inr, Bool-cases,
}
use mattermost_plugin_matrix.Cache.{
  Cache, Entry, unlink, holds, remove_element, evict_loop, evict_expired, expired,
}
use mattermost_plugin_matrix.Cache.Spec.{view, is_live}

-- The loop of `EvictExpired` over a part of the list: the elements outside it stay.
evict_loop_frame :
    (now : ℕ) (l : List ℕ) (c : Cache) (n : ℕ)
    → ((evict_loop now l c n).0.heap ≡ c.heap)
      × ((evict_loop now l c n).1 ≡ n + tally (λ e. expired now (c.heap e)) l)
unfolding evict_loop remove_element
evict_loop_frame now [] c n = (refl, omega arith)
evict_loop_frame now (e ∷ l) c n =
    ground (arith, evict_loop_frame now l (remove_element c e) (n + 1), evict_loop_frame now l c n)

-- What the loop leaves of a list of elements.
survivors : ℕ → (ℕ → Entry) → List ℕ → List ℕ → List ℕ
survivors now heap [] all = all
survivors now heap (e ∷ l) all =
    survivors now heap l (if expired now (heap e) then unlink e all else all)

lru-evict_loop :
    (now : ℕ) (l : List ℕ) (c : Cache) (n : ℕ)
    → (evict_loop now l c n).0.lru ≡ survivors now c.heap l c.lru
unfolding evict_loop remove_element survivors
lru-evict_loop now [] c n = refl
lru-evict_loop now (e ∷ l) c n =
    ground (arith, lru-evict_loop now l (remove_element c e) (n + 1), lru-evict_loop now l c n)

keep-unlink :
    (p q : ℕ → Bool) (e : ℕ) (all : List ℕ)
    → ((d : ℕ) → eqb d e ≡ false → p d ≡ q d)
    → q e ≡ false
    → keep p (unlink e all) ≡ keep q all
unfolding unlink
keep-unlink p q e [] h off = refl
keep-unlink p q e (d ∷ all) h off = ground (arith, h d, eqb_iff d e, keep-unlink p q e all h off)

keep_agree :
    (p q : ℕ → Bool) (l : List ℕ) → ((d : ℕ) → holds d l ≡ true → p d ≡ q d) → keep p l ≡ keep q l
unfolding holds
keep_agree p q [] h = refl
keep_agree p q (d ∷ l) h =
    ground (arith, eqb_iff d d, h d, keep_agree p q l (λ c m. h c (ground arith)))

-- Of the elements of `l`, the loop leaves those that have not expired.
stays : ℕ → (ℕ → Entry) → List ℕ → ℕ → Bool
stays now heap l d = not (expired now (heap d) && holds d l)

keep_all : (l : List ℕ) → keep (λ d. true) l ≡ l
keep_all [] = refl
keep_all (d ∷ l) = ap (◌∷◌ d) (keep_all l)

survivors-keep :
    (now : ℕ) (heap : ℕ → Entry) (l all : List ℕ)
    → survivors now heap l all ≡ keep (stays now heap l) all
unfolding survivors stays holds
survivors-keep now heap [] all = sym (
    keep_agree (stays now heap []) (λ d. true) all (λ d h. unfold stays holds in ground arith)
    ∙ keep_all all)
survivors-keep now heap (e ∷ l) all = elim (Bool-cases (expired now (heap e))) [
  | inl old ↦ rw old (
      survivors-keep now heap l (unlink e all)
      ∙ keep-unlink (stays now heap l) (stays now heap (e ∷ l)) e all
          (λ d h. unfold stays holds in ground (arith, eqb_iff e d, eqb_iff d e))
          (unfold stays holds in ground (arith, eqb_iff e e)))
  | inr live ↦ rw live (
      survivors-keep now heap l all
      ∙ keep_agree (stays now heap l) (stays now heap (e ∷ l)) all
          (λ d h. unfold stays holds in ground (arith, eqb_iff e d)))
]

map-keep :
    (now : ℕ) (heap : ℕ → Entry) (l : List ℕ)
    → map heap (keep (λ d. is_live now (heap d)) l) ≡ keep (is_live now) (map heap l)
map-keep now heap [] = refl
map-keep now heap (d ∷ l) = ground (arith, map-keep now heap l)

pub tally-map :
    (now : ℕ) (heap : ℕ → Entry) (l : List ℕ)
    → tally (λ d. expired now (heap d)) l ≡ tally (λ x. not (is_live now x)) (map heap l)
unfolding expired is_live
tally-map now heap [] = refl
tally-map now heap (d ∷ l) = ground (arith, tally-map now heap l)

-- `EvictExpired` keeps the entries that have not expired, in order, and no other, and returns the
-- number of entries that it removed.
pub evict_expired-is_live :
    (now : ℕ) (c : Cache)
    → (view (evict_expired now c).0 ≡ keep (is_live now) (view c))
      × ((evict_expired now c).1 ≡ tally (λ x. not (is_live now x)) (view c))
unfolding evict_expired
evict_expired-is_live now c = (
  rw ((evict_loop_frame now c.lru c 0).0) (
      rw (lru-evict_loop now c.lru c 0) (
        ap (map c.heap) (
          survivors-keep now c.heap c.lru c.lru
          ∙ keep_agree (stays now c.heap c.lru) (λ d. is_live now (c.heap d)) c.lru
              (λ d h. unfold stays is_live expired in ground arith))
        ∙ map-keep now c.heap c.lru)),
  (evict_loop_frame now c.lru c 0).1 ∙ omega (arith, tally-map now c.heap c.lru),
)

capacity-evict_loop :
    (now : ℕ) (l : List ℕ) (c : Cache) (n : ℕ) → (evict_loop now l c n).0.capacity ≡ c.capacity
unfolding evict_loop remove_element
capacity-evict_loop now [] c n = refl
capacity-evict_loop now (e ∷ l) c n =
    ground
      (arith, capacity-evict_loop now l (remove_element c e) (n + 1), capacity-evict_loop now l c n)

pub capacity-evict_expired : (now : ℕ) (c : Cache) → (evict_expired now c).0.capacity ≡ c.capacity
unfolding evict_expired
capacity-evict_expired now c = capacity-evict_loop now c.lru c 0
