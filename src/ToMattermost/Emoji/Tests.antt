-- ===== src/ToMattermost/Emoji/Tests.antt =====
-- Names of emoji (server/sync_to_mattermost.go) for a small table.
use mattermost_plugin_matrix.Prelude.{
  ℕ, ◌≡◌, refl, Option, none, some, List, [], ◌∷◌, eqb, Text, ◌==◌, lit, has_prefix, if◌then◌else◌,
}
use mattermost_plugin_matrix.ToMattermost.Names.{rune_tail}
use mattermost_plugin_matrix.ToMattermost.Emoji.{
  split_dashes, hex_digit, hex_digits, parse_hex, encode_rune, encode_parts, hex_to_unicode,
  remove_rune, strip_variation, is_simple_name, rune_count, safe_name, fallback_name, common_name,
  has_name, shows, first_name, similar_name, convert_matrix_emoji_to_mattermost, encode_runes,
}

program : Unit {0}
unfolding ◌==◌ has_prefix rune_tail split_dashes hex_digit hex_digits parse_hex encode_rune
    encode_parts hex_to_unicode remove_rune strip_variation is_simple_name rune_count safe_name
    fallback_name common_name has_name shows first_name similar_name
    convert_matrix_emoji_to_mattermost
program = tt

abbrev names : List (Text × ℕ)
names = (lit "tada", 1) ∷ (lit "thumbsup", 0) ∷ (lit "+1", 0) ∷ (lit "hearts", 2) ∷ []

abbrev unicode_of : ℕ → Option Text
unicode_of n =
    if eqb n 0
    then some (lit "1f44d")
    else if eqb n 1
    then some (lit "1f389")
    else if eqb n 2
    then some (lit "2665-fe0f")
    else none

by_name : convert_matrix_emoji_to_mattermost names unicode_of (lit "+1") ≡ lit "+1"
unfolding program
by_name = refl

-- without the variation selector
similar :
    convert_matrix_emoji_to_mattermost names unicode_of (encode_runes (9829 ∷ 65038 ∷ []))
    ≡ lit "hearts"
unfolding program
similar = refl

common : convert_matrix_emoji_to_mattermost [] unicode_of (encode_runes (128293 ∷ [])) ≡ lit "fire"
unfolding program
common = refl

unknown : convert_matrix_emoji_to_mattermost names unicode_of (lit "Ok") ≡ lit "ok"
unfolding program
unknown = refl
