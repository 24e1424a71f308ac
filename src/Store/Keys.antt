-- ===== src/Store/Keys.antt =====
-- The keys of server/store/kvstore/constants.go do not run into each other.
use mattermost_plugin_matrix.Prelude.{
  ℕ, zero, suc, ◌≡◌, refl, Bool, true, false, ◌&&◌, Option, none, some, List, [], ◌∷◌, ◌++◌, eqb,
  Text, ◌==◌, arith, if◌then◌else◌,
}
use mattermost_plugin_matrix.Store.{
  key_prefixes, build_channel_mapping_key, build_room_mapping_key, build_matrix_user_key,
  build_mattermost_user_key,
}

-- Texts with one prefix are equal if what follows is.
pub eq-append : (p x y : Text) → ((p ++ x) == (p ++ y)) ≡ (x == y)
unfolding ◌==◌
eq-append [] x y = refl
eq-append (c ∷ p) x y = ground (arith, eq-append p x y)

-- Neither of two texts is a prefix of the other.
unfoldable pub diverges : Text → Text → Bool
diverges [] q = false
diverges (c ∷ p) [] = false
diverges (c ∷ p) (d ∷ q) = if eqb c d then diverges p q else true

pub eq-diverges : (p q x y : Text) → diverges p q ≡ true → ((p ++ x) == (q ++ y)) ≡ false
unfolding ◌==◌ diverges
eq-diverges [] q x y h = absurd (ground arith)
eq-diverges (c ∷ p) [] x y h = absurd (ground arith)
eq-diverges (c ∷ p) (d ∷ q) x y h = ground (arith, eq-diverges p q x y)

diverges_comm : (p q : Text) → diverges p q ≡ true → diverges q p ≡ true
unfolding diverges
diverges_comm [] q h = absurd (ground arith)
diverges_comm (c ∷ p) [] h = absurd (ground arith)
diverges_comm (c ∷ p) (d ∷ q) h = ground (arith, diverges_comm p q)

all_diverge : Text → List Text → Bool
all_diverge p [] = true
all_diverge p (q ∷ qs) = diverges p q && all_diverge p qs

apart : List Text → Bool
apart [] = true
apart (p ∷ ps) = all_diverge p ps && apart ps

unfoldable pub get_elem? : List Text → ℕ → Option Text
get_elem? [] i = none
get_elem? (p ∷ ps) zero = some p
get_elem? (p ∷ ps) (suc i) = get_elem? ps i

elem-diverges :
    (p q : Text) (ps : List Text) (i : ℕ)
    → all_diverge p ps ≡ true
    → get_elem? ps i ≡ some q
    → diverges p q ≡ true
unfolding all_diverge get_elem?
elem-diverges p q [] i h e = absurd (ground arith)
elem-diverges p q (r ∷ ps) zero h e = ground arith
elem-diverges p q (r ∷ ps) (suc i) h e = elem-diverges p q ps i (ground arith) e

elems-apart :
    (ps : List Text) (i j : ℕ) (p q x y : Text)
    → apart ps ≡ true
    → get_elem? ps i ≡ some p
    → get_elem? ps j ≡ some q
    → ((p ++ x) == (q ++ y)) ≡ (eqb i j && (x == y))
unfolding apart get_elem?
elems-apart [] i j p q x y h e f = absurd (ground arith)
elems-apart (r ∷ ps) zero zero p q x y h e f =
    let same : p ≡ q = ground arith in rw same (eq-append q x y)
elems-apart (r ∷ ps) zero (suc j) p q x y h e f =
    let first : p ≡ r = ground arith in
    ground (arith, eq-diverges p q x y (rw first (elem-diverges r q ps j (ground arith) f)))
elems-apart (r ∷ ps) (suc i) zero p q x y h e f =
    let first : q ≡ r = ground arith in
    ground (
      arith,
      eq-diverges p q x y (rw first (diverges_comm r p (elem-diverges r p ps i (ground arith) e))),
    )
elems-apart (r ∷ ps) (suc i) (suc j) p q x y h e f =
    ground (arith, elems-apart ps i j p q x y (ground arith) e f)

-- Two keys made of a prefix of the store and a text are the same only if the prefix and the text
-- are, whatever the texts are.
pub key_prefixes-apart :
    (i j : ℕ) (p q x y : Text)
    → get_elem? key_prefixes i ≡ some p
    → get_elem? key_prefixes j ≡ some q
    → ((p ++ x) == (q ++ y)) ≡ (eqb i j && (x == y))
unfolding apart diverges all_diverge
key_prefixes-apart i j p q x y e f = elems-apart key_prefixes i j p q x y refl e f

pub channel-room : (x y : Text) → (build_channel_mapping_key x == build_room_mapping_key y) ≡ false
unfolding build_channel_mapping_key build_room_mapping_key get_elem?
channel-room x y = key_prefixes-apart 2 3 _ _ x y refl refl

pub room-channel : (x y : Text) → (build_room_mapping_key x == build_channel_mapping_key y) ≡ false
unfolding build_channel_mapping_key build_room_mapping_key get_elem?
room-channel x y = key_prefixes-apart 3 2 _ _ x y refl refl

pub room-room : (x y : Text) → (build_room_mapping_key x == build_room_mapping_key y) ≡ (x == y)
unfolding build_room_mapping_key get_elem?
room-room x y = key_prefixes-apart 3 3 _ _ x y refl refl

pub channel-channel :
    (x y : Text) → (build_channel_mapping_key x == build_channel_mapping_key y) ≡ (x == y)
unfolding build_channel_mapping_key get_elem?
channel-channel x y = key_prefixes-apart 2 2 _ _ x y refl refl

pub mattermost_user-matrix_user :
    (x y : Text) → (build_mattermost_user_key x == build_matrix_user_key y) ≡ false
unfolding build_mattermost_user_key build_matrix_user_key get_elem?
mattermost_user-matrix_user x y = key_prefixes-apart 1 0 _ _ x y refl refl
