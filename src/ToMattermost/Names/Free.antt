-- ===== src/ToMattermost/Names/Free.antt =====
-- Which name `generateMattermostUsername` (server/sync_to_mattermost.go) chooses.
use mattermost_plugin_matrix.Prelude.{
  ℕ, zero, suc, ◌-◌, ◌+◌, ◌<◌, ◌≤◌, ◌≡◌, refl, ap, ◌∙◌, Bool, true, false, ◌||◌, none, some,
  Option-cases, Bool-cases, inl, inr, [], ◌∷◌, ◌++◌, Text, lit, All, eqb, arith,
}
use mattermost_plugin_matrix.Content.Spaces.{within}
use mattermost_plugin_matrix.Mattermost.{MattermostServer}
use mattermost_plugin_matrix.ToMattermost.Names.{
  is_username_byte, rune_tail, sanitized_rune, sanitized, get_matrix_username_prefix, numbered,
  first_free, generate_mattermost_username,
}

-- The characters that a user name of Mattermost may have.
abbrev pub allowed_characters : Text
allowed_characters = lit "abcdefghijklmnopqrstuvwxyz0123456789-_"

-- If a byte is one of a text.
abbrev pub occurs : ℕ → Text → Bool
occurs c [] = false
occurs c (d ∷ s) = eqb d c || occurs c s

-- `n` bytes in a row.
abbrev consecutive : ℕ → ℕ → Text
consecutive low zero = []
consecutive low (suc n) = low ∷ consecutive (suc low) n

occurs-consecutive : (c low n : ℕ) → low ≤ c → c < low + n → occurs c (consecutive low n) ≡ true
occurs-consecutive c low zero above below = absurd (omega arith)
occurs-consecutive c low (suc n) above below = elim (Bool-cases (eqb low c)) [
  | inl e ↦ rw e refl
  | inr e ↦ rw e (occurs-consecutive c (suc low) n (ground arith) (omega arith))
]

occurs-append : (c : ℕ) (s t : Text) → occurs c (s ++ t) ≡ (occurs c s || occurs c t)
occurs-append c [] t = refl
occurs-append c (d ∷ s) t = ground (arith, occurs-append c s t)

or_left : (a b : Bool) → a ≡ true → (a || b) ≡ true
or_left a b h = rw h refl

or_right : (a b : Bool) → b ≡ true → (a || b) ≡ true
or_right true b h = refl
or_right false b h = h

-- The letters, the digits and the rest.
is_username_byte-occurs : (c : ℕ) → is_username_byte c ≡ true → occurs c allowed_characters ≡ true
is_username_byte-occurs c h =
    let letters = consecutive 97 26 in
    let figures = consecutive 48 10 in
    let rest : Text = 45 ∷ 95 ∷ [] in
    occurs-append c letters (figures ++ rest) ∙ elim (Bool-cases (within 97 122 c)) [
      | inl e ↦
          or_left (occurs c letters) (occurs c (figures ++ rest))
            (occurs-consecutive c 97 26 (ground arith) (ground arith))
      | inr e ↦ or_right (occurs c letters) (occurs c (figures ++ rest)) (
          occurs-append c figures rest ∙ elim (Bool-cases (within 48 57 c)) [
            | inl f ↦
                or_left (occurs c figures) (occurs c rest)
                  (occurs-consecutive c 48 10 (ground arith) (ground arith))
            | inr f ↦ or_right (occurs c figures) (occurs c rest) (ground arith)
          ])
    ]

sanitized_rune-is_username_byte : (c : ℕ) (s : Text) → is_username_byte (sanitized_rune c s) ≡ true
unfolding sanitized_rune
sanitized_rune-is_username_byte c s = ground arith

-- A byte that is allowed stands for itself.
username_byte_kept :
    (c : ℕ) (s : Text) → is_username_byte c ≡ true → (sanitized_rune c s ≡ c) × (rune_tail c s ≡ 0)
unfolding sanitized_rune rune_tail
username_byte_kept c s h = (ground arith, ground arith)

allowed_kept : (s : Text) → All (λ c. is_username_byte c ≡ true) s → sanitized 0 s ≡ s
unfolding sanitized
allowed_kept [] h = refl
allowed_kept (c ∷ s) (here, rest) =
    let (same, alone) = username_byte_kept c s here in
    rw (same, alone) (ap (λ t. c ∷ t) (allowed_kept s rest))

sanitized-is_username_byte :
    (skip : ℕ) (s : Text) → All (λ c. is_username_byte c ≡ true) (sanitized skip s)
unfolding sanitized
sanitized-is_username_byte skip [] = tt
sanitized-is_username_byte (suc skip) (c ∷ s) = sanitized-is_username_byte skip s
sanitized-is_username_byte zero (c ∷ s) =
    (sanitized_rune-is_username_byte c s, sanitized-is_username_byte (rune_tail c s) s)

All-occurs :
    (s : Text)
    → All (λ c. is_username_byte c ≡ true) s
    → All (λ c. occurs c allowed_characters ≡ true) s
All-occurs [] h = tt
All-occurs (c ∷ s) (here, rest) = (is_username_byte-occurs c here, All-occurs s rest)

-- Whatever a Matrix user name is, each byte of the name made of it is a small letter, a digit, a dash
-- or an underscore, and to make a name of that name again changes nothing.
pub sanitized_lem :
    (skip : ℕ) (s : Text)
    → All (λ c. occurs c allowed_characters ≡ true) (sanitized skip s)
      × (sanitized 0 (sanitized skip s) ≡ sanitized skip s)
sanitized_lem skip s =
    let bytes = sanitized-is_username_byte skip s in
    (All-occurs (sanitized skip s) bytes, allowed_kept (sanitized skip s) bytes)

module _ {S : Type 0} (mm : MattermostServer S) where
  first_free_lem :
      (left i : ℕ) (prefix original : Text) (s : S)
      → left ≤ 1000
      → 1000 - left ≤ i
      → i < 1000
      → mm.get_user_by_username (numbered original i) s ≡ none
      → mm.get_user_by_username (first_free mm left prefix original s) s ≡ none
  unfolding first_free
  first_free_lem zero i prefix original s bound low high free = absurd (omega arith)
  first_free_lem (suc left) i prefix original s bound low high free =
      elim (Option-cases (mm.get_user_by_username (numbered original (999 - left)) s)) [
        | inl e ↦ rw (e, first_free) e
        | inr (user, e) ↦
            rw (e, first_free)
              (elim (Bool-cases (eqb i (999 - left))) [
                | inl same ↦
                    let at : i ≡ 999 - left = ground arith in
                    let taken : mm.get_user_by_username (numbered original i) s ≡ some user =
                      rw at e in
                    absurd (ground arith)
                | inr other ↦
                    first_free_lem left i prefix original s (omega arith) (ground arith) high free
              ])
      ]

  -- If any of the thousand names that are tried is free, then the name that is chosen is free.
  pub generate_mattermost_username_free :
      (username_prefix base : Text) (i : ℕ) (s : S)
      → i < 1000
      → mm.get_user_by_username
          (numbered (get_matrix_username_prefix username_prefix ++ lit ":" ++ sanitized 0 base) i)
          s
        ≡ none
      → mm.get_user_by_username (generate_mattermost_username mm username_prefix base s) s ≡ none
  unfolding generate_mattermost_username
  generate_mattermost_username_free username_prefix base i s high free =
      first_free_lem 1000 i _ _ s (omega arith) (omega arith) high free
