-- ===== src/Store/Memory.antt =====
-- A key-value store in memory, of which no operation fails, as an instance of the interface of
-- server/store/kvstore/kvstore.go.
use mattermost_plugin_matrix.Prelude.{
  ℕ, ◌*◌, ◌≡◌, refl, false, not, none, some, List, [], ◌∷◌, if◌then◌else◌, Text, ◌==◌, eq_iff,
  has_prefix, keep, take, drop, arith,
}
use mattermost_plugin_matrix.Prelude.Dict
use mattermost_plugin_matrix.Prelude.Dict.{Dict, get-put, get-remove}
use mattermost_plugin_matrix.Store.{KvStore, IsKvStore, IsListed}

unfoldable pub value_of : Text → Dict Text → Text
value_of k m = elim (Dict.get k m) [ none ↦ [] | some v ↦ v ]

unfoldable pub keys_of : Text → Dict Text → List Text
keys_of prefix [] = []
keys_of prefix ((k, v) ∷ m) =
    let rest = keys_of prefix m in if has_prefix k prefix then k ∷ rest else rest

abbrev pub memory : KvStore (Dict Text)
memory = record {
  get = λ k m. some (value_of k m);
  set = λ k v m. some (Dict.put k v m);
  delete = λ k m. some (Dict.remove k m);
  list_keys_with_prefix =
      λ page per_page prefix m. some (take per_page (drop (page * per_page) (keys_of prefix m)));
}

pub get_law : (k v : Text) (s : Dict Text) → memory.get k s ≡ some v → v ≡ value_of k s
get_law k v s h = ground arith

pub set_law :
    (k j v : Text) (s after : Dict Text)
    → memory.set k v s ≡ some after
    → value_of j after ≡ (if k == j then v else value_of j s)
unfolding value_of
set_law k j v s after h =
    let same : after ≡ Dict.put k v s = ground arith in rw same (ground (arith, get-put k j v s))

pub delete_law :
    (k j : Text) (s after : Dict Text)
    → memory.delete k s ≡ some after
    → value_of j after ≡ (if k == j then [] else value_of j s)
unfolding value_of
delete_law k j s after h =
    let same : after ≡ Dict.remove k s = ground arith in rw same (ground (arith, get-remove k j s))

abbrev pub memory-IsKvStore : IsKvStore memory
memory-IsKvStore = record {
  contents = value_of;
  contents-get = get_law;
  contents-set = set_law;
  contents-delete = delete_law;
}

keys_of-put :
    (prefix k v : Text) (m : Dict Text)
    → has_prefix k prefix ≡ false
    → keys_of prefix (Dict.put k v m) ≡ keys_of prefix m
unfolding keys_of Dict.put
keys_of-put prefix k v [] h = ground arith
keys_of-put prefix k v ((j, w) ∷ m) h = ground (arith, eq_iff j k, keys_of-put prefix k v m h)

keys_of-remove :
    (prefix k : Text) (m : Dict Text)
    → keys_of prefix (Dict.remove k m) ≡ keep (λ j. not (k == j)) (keys_of prefix m)
unfolding keys_of Dict.remove
keys_of-remove prefix k [] = refl
keys_of-remove prefix k ((j, w) ∷ m) =
    ground (arith, eq_iff j k, eq_iff k j, keys_of-remove prefix k m)

pub list_law :
    (page per_page : ℕ) (prefix : Text) (s : Dict Text) (listed : List Text)
    → memory.list_keys_with_prefix page per_page prefix s ≡ some listed
    → listed ≡ take per_page (drop (page * per_page) (keys_of prefix s))
list_law page per_page prefix s listed h = ground arith

pub set_keys_law :
    (prefix k v : Text) (s after : Dict Text)
    → memory.set k v s ≡ some after
    → has_prefix k prefix ≡ false
    → keys_of prefix after ≡ keys_of prefix s
set_keys_law prefix k v s after h other =
    let same : after ≡ Dict.put k v s = ground arith in rw same (keys_of-put prefix k v s other)

pub delete_keys_law :
    (prefix k : Text) (s after : Dict Text)
    → memory.delete k s ≡ some after
    → keys_of prefix after ≡ keep (λ j. not (k == j)) (keys_of prefix s)
delete_keys_law prefix k s after h =
    let same : after ≡ Dict.remove k s = ground arith in rw same (keys_of-remove prefix k s)

abbrev pub memory-IsListed : IsListed memory
memory-IsListed = record {
  keys = keys_of;
  keys-list = list_law;
  keys-set = set_keys_law;
  keys-delete = delete_keys_law;
}
