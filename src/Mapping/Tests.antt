-- ===== src/Mapping/Tests.antt =====
-- The mapping functions run on a store in memory, and their theorems at that run.
use mattermost_plugin_matrix.Prelude.{
  ◌≡◌, refl, Bool, true, none, some, [], if◌then◌else◌, Text, ◌==◌, lit, arith, has_prefix,
}
use mattermost_plugin_matrix.Prelude.Dict
use mattermost_plugin_matrix.Prelude.Dict.{Dict}
use mattermost_plugin_matrix.Prelude.Int.{ℤ}
use mattermost_plugin_matrix.Cache
use mattermost_plugin_matrix.Cache.{Cache, new_cache}
use mattermost_plugin_matrix.Cache.Invariant.{new_cache-IsValid}
use mattermost_plugin_matrix.Store.{build_channel_mapping_key, build_room_mapping_key}
use mattermost_plugin_matrix.Store.Memory.{memory, value_of, memory-IsKvStore}
use mattermost_plugin_matrix.Mapping.{
  MatrixClient, Bridge, resolved, resolve_room_alias, get_matrix_room_id, set_channel_room_mapping,
  set_alias, cache_room, look_up, get_channel_id_from_matrix_room, execute_unmap_command,
}
use mattermost_plugin_matrix.Mapping.RoundTrip.{
  set_channel_room_mapping_lem, get_matrix_room_id-set_channel_room_mapping,
  get_channel_id-set_channel_room_mapping,
}
use mattermost_plugin_matrix.Mapping.Stale.{get_matrix_room_id-execute_unmap_command}

program : Unit {0}
unfolding new_cache Cache.get Cache.set Dict.get Dict.put Dict.remove ◌==◌ has_prefix value_of
    build_channel_mapping_key build_room_mapping_key resolved resolve_room_alias get_matrix_room_id
    set_channel_room_mapping set_alias cache_room look_up get_channel_id_from_matrix_room
    execute_unmap_command
program = tt

abbrev client : MatrixClient
client = record {
  configured = true;
  directory = λ room_alias. some (lit "!r:hs");
  channel_in_state = λ room. none;
  removes_channel = λ room. true;
}

abbrev cache : Cache
cache = new_cache (ℤ.pos 4) 60

abbrev start : Bridge (Dict Text)
start = record { store = []; room_mapping_cache = some cache }

abbrev mapped : Bridge (Dict Text) × Bool
mapped = set_channel_room_mapping memory client 1 (lit "c") (lit "#a:hs") start

-- both the room and its alias lead to the channel
alias_found : get_channel_id_from_matrix_room memory none (lit "#a:hs") mapped.0.store ≡ lit "c"
unfolding program
alias_found = refl

set_channel_room_mapping_lem_example :
    (value_of (build_channel_mapping_key (lit "d")) mapped.0.store ≡ (
      if lit "c" == lit "d"
      then resolved client (lit "#a:hs")
      else value_of (build_channel_mapping_key (lit "d")) []))
    × (value_of (build_room_mapping_key (resolved client (lit "#a:hs"))) mapped.0.store ≡ lit "c")
unfolding program
set_channel_room_mapping_lem_example =
    set_channel_room_mapping_lem memory memory-IsKvStore client 1 (lit "c") (lit "#a:hs") (lit "d")
      start refl

get_matrix_room_id-set_channel_room_mapping_example :
    (get_matrix_room_id memory 99 (lit "c") mapped.0).1 ≡ resolved client (lit "#a:hs")
unfolding program
get_matrix_room_id-set_channel_room_mapping_example =
    get_matrix_room_id-set_channel_room_mapping memory memory-IsKvStore client 1 99 (lit "c")
      (lit "#a:hs") start (lit "!r:hs") (new_cache-IsValid (ℤ.pos 4) 60, refl) refl refl

get_channel_id-set_channel_room_mapping_example :
    get_channel_id_from_matrix_room memory none (resolved client (lit "#a:hs")) mapped.0.store
    ≡ lit "c"
unfolding program
get_channel_id-set_channel_room_mapping_example =
    get_channel_id-set_channel_room_mapping memory memory-IsKvStore client none 1 (lit "c")
      (lit "#a:hs") start (lit "c") refl refl refl

get_matrix_room_id-execute_unmap_command_example :
    (value_of
        (build_channel_mapping_key (lit "c"))
        (execute_unmap_command memory (some client) (lit "c") mapped.0.store).0
      ≡ [])
    × ((get_matrix_room_id memory 30 (lit "c") (record mapped.0 {
      store = (execute_unmap_command memory (some client) (lit "c") mapped.0.store).0;
    })).1
        ≡ resolved client (lit "#a:hs"))
unfolding program
get_matrix_room_id-execute_unmap_command_example =
    get_matrix_room_id-execute_unmap_command memory memory-IsKvStore client (some client) 1 30
      (lit "c") (lit "#a:hs") start cache refl (new_cache-IsValid (ℤ.pos 4) 60) refl (omega arith)
      refl refl
