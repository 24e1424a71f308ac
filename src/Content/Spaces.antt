-- ===== src/Content/Spaces.antt =====
-- White space of UTF-8 texts, as Go's package strings has it, where the program splits and trims texts.
use mattermost_plugin_matrix.Prelude.{
  ℕ, zero, suc, Bool, true, false, ◌&&◌, ◌||◌, List, [], ◌∷◌, ◌++◌, drop, leb, eqb, if◌then◌else◌,
  Text, has_prefix,
}

-- If a byte is between two others, the bounds included.
abbrev pub within : ℕ → ℕ → ℕ → Bool
within low high c = leb low c && leb c high

-- the last byte of a white space that starts with E2 80
abbrev pub is_wide_space : Text → Bool
is_wide_space [] = false
is_wide_space (c ∷ s) = within 128 138 c || eqb c 168 || eqb c 169 || eqb c 175

-- How many bytes of white space a text starts with, as `unicode.IsSpace` has it.
unfoldable pub space_width : Text → ℕ
space_width [] = 0
space_width (c ∷ s) =
    if within 9 13 c || eqb c 32
    then 1
    else if eqb c 194 && (has_prefix s (133 ∷ []) || has_prefix s (160 ∷ []))
    then 2
    else if (eqb c 225 && has_prefix s (154 ∷ 128 ∷ []))
        || (eqb c 227 && has_prefix s (128 ∷ 128 ∷ []))
        || (eqb c 226 && has_prefix s (129 ∷ 159 ∷ []))
        || (eqb c 226 && has_prefix s (128 ∷ []) && is_wide_space (drop 1 s))
    then 3
    else 0

-- A word that has ended, in front of the others.
abbrev pub flush : Text → List Text → List Text
flush [] words = words
flush (c ∷ s) words = (c ∷ s) ∷ words

-- `strings.Fields`: the bytes of white space still to pass over, and the word that is read
unfoldable pub fields : ℕ → Text → Text → List Text
fields skip word [] = flush word []
fields (suc skip) word (c ∷ s) = fields skip word s
fields zero word (c ∷ s) = elim (space_width (c ∷ s)) [
  | zero ↦ fields zero (word ++ c ∷ []) s
  | suc skip ↦ flush word (fields skip [] s)
]

-- If a text is white space.
unfoldable pub is_blank : Text → Bool
is_blank s = elim (fields 0 [] s) [ [] ↦ true | word ∷ words ↦ false ]

-- `strings.TrimLeft`
unfoldable pub trim_left : ℕ → Text → Text
trim_left skip [] = []
trim_left (suc skip) (c ∷ s) = trim_left skip s
trim_left zero (c ∷ s) = elim (space_width (c ∷ s)) [ zero ↦ c ∷ s | suc skip ↦ trim_left skip s ]

-- `strings.TrimRight`
unfoldable pub trim_right : Text → Text
trim_right [] = []
trim_right (c ∷ s) = let rest = trim_right s in if is_blank (c ∷ s) then [] else c ∷ rest

-- `strings.TrimSpace`
unfoldable pub trim_space : Text → Text
trim_space s = trim_right (trim_left 0 s)
