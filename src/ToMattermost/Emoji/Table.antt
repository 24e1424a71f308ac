-- ===== src/ToMattermost/Emoji/Table.antt =====
-- The name that `convertMatrixEmojiToMattermost` (server/sync_to_mattermost.go) takes from the table.
use mattermost_plugin_matrix.Prelude.{
  ℕ, ◌≡◌, refl, Bool, true, false, ◌&&◌, ◌||◌, Option, none, some, Option-cases, inl, inr, List, [],
  ◌∷◌, Text, ◌==◌, eq_refl, arith,
}
use mattermost_plugin_matrix.ToMattermost.Emoji.{
  is_simple_name, shows, first_name, convert_matrix_emoji_to_mattermost,
}

module _ (names : List (Text × ℕ)) (unicode_of : ℕ → Option Text) where
  -- If a name of the table stands for an emoji.
  abbrev pub stands_for : List (Text × ℕ) → Text → Text → Bool
  stands_for [] name emoji = false
  stands_for ((other, index) ∷ rest) name emoji =
      (other == name && shows names unicode_of (λ s. s) index emoji) || stands_for rest name emoji

  -- If any name of the table stands for an emoji.
  abbrev pub is_known : List (Text × ℕ) → Text → Bool
  is_known [] emoji = false
  is_known ((other, index) ∷ rest) emoji =
      shows names unicode_of (λ s. s) index emoji || is_known rest emoji

  first_name-stands_for :
      (table : List (Text × ℕ)) (name emoji : Text)
      → first_name names unicode_of (λ s. s) table emoji ≡ some name
      → stands_for table name emoji ≡ true
  unfolding first_name
  first_name-stands_for [] name emoji h = absurd (ground arith)
  first_name-stands_for ((other, index) ∷ rest) name emoji h =
      ground (arith, first_name-stands_for rest name emoji, eq_refl name)

  first_name-none :
      (table : List (Text × ℕ)) (emoji : Text)
      → first_name names unicode_of (λ s. s) table emoji ≡ none
      → is_known table emoji ≡ false
  unfolding first_name
  first_name-none [] emoji h = refl
  first_name-none ((other, index) ∷ rest) emoji h = ground (arith, first_name-none rest emoji)

  -- If the table has a name for an emoji, and the emoji is not itself written as a name, then the
  -- result is a name that the table has for it, in whatever order the names are visited.
  pub convert_matrix_emoji_to_mattermost-stands_for :
      (emoji : Text)
      → is_simple_name emoji ≡ false
      → is_known names emoji ≡ true
      → stands_for names (convert_matrix_emoji_to_mattermost names unicode_of emoji) emoji ≡ true
  unfolding convert_matrix_emoji_to_mattermost
  convert_matrix_emoji_to_mattermost-stands_for emoji unicode known =
      elim (Option-cases (first_name names unicode_of (λ s. s) names emoji)) [
        | inl e ↦ absurd (ground (arith, first_name-none names emoji e))
        | inr (name, e) ↦
            rw unicode (
              rw (e, convert_matrix_emoji_to_mattermost) (first_name-stands_for names name emoji e))
      ]
