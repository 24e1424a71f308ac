-- ===== src/ToMattermost/Users/Tests.antt =====
-- Runs of `getOrCreateMattermostUser` (server/sync_to_mattermost.go) and of the names it makes, and the
-- theorems on them applied.
use mattermost_plugin_matrix.Prelude.{
  ◌≡◌, refl, true, none, some, [], ◌∷◌, ◌++◌, All, ◌==◌, lit, has_prefix, index_byte, if◌then◌else◌,
  arith,
}
use mattermost_plugin_matrix.Prelude.Dict
use mattermost_plugin_matrix.Store.{build_matrix_user_key, build_mattermost_user_key}
use mattermost_plugin_matrix.Store.Memory.{value_of}
use mattermost_plugin_matrix.Mattermost.{MattermostServer, User}
use mattermost_plugin_matrix.Mattermost.InMemory.{
  Server, server, server_kv, server_kv-IsKvStore, server-IsMattermost,
}
use mattermost_plugin_matrix.ToMattermost.Sample.{server_kv-IsReliable, client, settings, start}
use mattermost_plugin_matrix.ToMattermost.Names.{
  extract_username_from_matrix_user_id, generate_mattermost_username, first_free, numbered, decimal,
  digits, sanitized, sanitized_rune, rune_tail, get_matrix_username_prefix, fallback_username,
}
use mattermost_plugin_matrix.ToMattermost.Names.Free.{
  sanitized_lem, occurs, allowed_characters, generate_mattermost_username_free,
}
use mattermost_plugin_matrix.ToMattermost.Profiles.{update_mattermost_user_profile}
use mattermost_plugin_matrix.ToMattermost.Users.{
  existing_user, join_team, add_user_to_channel_team, new_profile, new_user, settle_user,
  create_mattermost_user, get_or_create_mattermost_user,
}
use mattermost_plugin_matrix.ToMattermost.Users.Again.{get_or_create_mattermost_user_again}

program : Unit {0}
unfolding Dict.get Dict.put Dict.remove ◌==◌ has_prefix index_byte build_matrix_user_key
    build_mattermost_user_key value_of extract_username_from_matrix_user_id
    generate_mattermost_username first_free numbered decimal digits sanitized sanitized_rune
    rune_tail get_matrix_username_prefix fallback_username update_mattermost_user_profile
    existing_user join_team add_user_to_channel_team new_profile new_user settle_user
    create_mattermost_user get_or_create_mattermost_user
program = tt

-- a new user
abbrev after_new : Server
after_new =
    (get_or_create_mattermost_user server_kv server (some client) settings (lit "@b:hs") [] start).0

get_or_create_mattermost_user_again_example :
    (get_or_create_mattermost_user server_kv server
      (some client)
      settings
      (lit "@b:hs")
      (lit "c")
      after_new).1
    ≡ some (lit "i")
unfolding program
get_or_create_mattermost_user_again_example =
    get_or_create_mattermost_user_again server_kv server_kv-IsKvStore server server-IsMattermost
      server_kv-IsReliable (some client) settings (lit "@b:hs") [] (lit "c") (lit "i") start refl
      refl

-- The name of a server that has it already, for all users.
abbrev someone : User
someone = record {
  id = lit "u";
  username = lit "matrix:bob";
  email = [];
  nickname = [];
  first_name = [];
  last_name = [];
  remote_id = [];
}

abbrev crowded : MattermostServer Server
crowded = record server {
  get_user_by_username = λ name s. if name == lit "matrix:bob" then some someone else none;
}

second_name : generate_mattermost_username crowded [] (lit "Bob") start ≡ lit "matrix:bob_1"
unfolding program
second_name = refl

generate_mattermost_username_free_example :
    crowded.get_user_by_username (generate_mattermost_username crowded [] (lit "Bob") start) start
    ≡ none
unfolding program
generate_mattermost_username_free_example =
    generate_mattermost_username_free crowded [] (lit "Bob") 1 start (omega arith) refl

cleaned : sanitized 0 (lit "Bob.Smith" ++ 195 ∷ 169 ∷ []) ≡ lit "bob_smith_"
unfolding program
cleaned = refl

sanitized_lem_example :
    All (λ c. occurs c allowed_characters ≡ true) (sanitized 0 (lit "Bob.Smith" ++ 195 ∷ 169 ∷ []))
    × (sanitized 0 (sanitized 0 (lit "Bob.Smith" ++ 195 ∷ 169 ∷ []))
        ≡ sanitized 0 (lit "Bob.Smith" ++ 195 ∷ 169 ∷ []))
sanitized_lem_example = sanitized_lem 0 (lit "Bob.Smith" ++ 195 ∷ 169 ∷ [])
