-- ===== src/Markdown/Links/Protocols.antt =====
-- Which addresses a link may have (server/markdown_utils.go).
use mattermost_plugin_matrix.Prelude.{
  ℕ, zero, suc, ◌≡◌, refl, Bool, true, ◌&&◌, ◌||◌, not, eqb, List, [], ◌∷◌, Text, ◌==◌, has_prefix,
  arith,
}
use mattermost_plugin_matrix.ToMattermost.Names.{lower_byte, rune_tail}
use mattermost_plugin_matrix.Markdown.Links.{
  lower_rune, to_lower, has_one_of, contains_byte, valid_protocols, dangerous_protocols,
  is_valid_url,
}

lower_byte_colon : (c : ℕ) → eqb (lower_byte c) 58 ≡ true → eqb c 58 ≡ true
lower_byte_colon c h = ground arith

lower_rune_colon : (c : ℕ) (s : Text) → eqb (lower_rune c s) 58 ≡ true → eqb c 58 ≡ true
unfolding lower_rune
lower_rune_colon c s h = ground (arith, lower_byte_colon c)

-- Lower case makes no colon.
to_lower_colon :
    (skip : ℕ) (s : Text) → contains_byte 58 (to_lower skip s) ≡ true → contains_byte 58 s ≡ true
unfolding to_lower contains_byte
to_lower_colon skip [] h = absurd (ground arith)
to_lower_colon (suc skip) (c ∷ s) h = ground (arith, to_lower_colon skip s)
to_lower_colon zero (c ∷ s) h =
    ground (arith, lower_rune_colon c s, to_lower_colon (rune_tail c s) s)

contains-has_prefix :
    (b : ℕ) (s p : Text)
    → has_prefix s p ≡ true
    → contains_byte b p ≡ true
    → contains_byte b s ≡ true
unfolding has_prefix contains_byte
contains-has_prefix b s [] h k = absurd (ground arith)
contains-has_prefix b [] (d ∷ p) h k = absurd (ground arith)
contains-has_prefix b (c ∷ s) (d ∷ p) h k = ground (arith, contains-has_prefix b s p)

-- If each of some texts has a byte.
all_contain : ℕ → List Text → Bool
all_contain b [] = true
all_contain b (p ∷ ps) = contains_byte b p && all_contain b ps

contains-has_one_of :
    (b : ℕ) (ps : List Text) (s : Text)
    → has_one_of ps s ≡ true
    → all_contain b ps ≡ true
    → contains_byte b s ≡ true
unfolding has_one_of all_contain
contains-has_one_of b [] s h k = absurd (ground arith)
contains-has_one_of b (p ∷ ps) s h k =
    ground (arith, contains-has_prefix b s p, contains-has_one_of b ps s)

-- An address that starts with one of the dangerous protocols has a colon.
dangerous-contains :
    (url : Text)
    → has_one_of dangerous_protocols (to_lower 0 url) ≡ true
    → contains_byte 58 url ≡ true
unfolding all_contain contains_byte
dangerous-contains url h =
    to_lower_colon 0 url (contains-has_one_of 58 dangerous_protocols (to_lower 0 url) h refl)

-- An address is valid exactly if it is not empty, and starts with one of the four valid protocols in any
-- case of its letters or has no colon. The test for dangerous protocols decides nothing by itself.
pub is_valid_url_iff :
    (url : Text)
    → is_valid_url url ≡ (
        not (url == [])
        && (has_one_of valid_protocols (to_lower 0 url) || not (contains_byte 58 url)))
unfolding is_valid_url
is_valid_url_iff url = ground (arith, dangerous-contains url)
