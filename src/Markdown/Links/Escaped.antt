-- ===== src/Markdown/Links/Escaped.antt =====
-- The address of a link, which is escaped with the whole text and then by itself
-- (server/markdown_utils.go).
use mattermost_plugin_matrix.Prelude.{
  ℕ, ◌+◌, ◌≡◌, refl, sym, ◌∙◌, ap, Bool, true, false, ◌||◌, Option-cases, inl, inr, eqb, eqb_iff,
  none, some, [], ◌∷◌, ◌++◌, length, length-append, drop, drop-length-append, Text, ◌==◌, lit,
  has_prefix-append, arith,
}
use mattermost_plugin_matrix.Markdown.Inline.{
  Match, left_over, replace_matches, span_until, between,
}
use mattermost_plugin_matrix.Markdown.Links.{
  escape_byte, escape_string, contains_byte, is_valid_url, link, link_at, convert_links,
}

append_assoc : (x y z : Text) → (x ++ y) ++ z ≡ x ++ (y ++ z)
append_assoc [] y z = refl
append_assoc (c ∷ x) y z = ap (◌∷◌ c) (append_assoc x y z)

span_until-append :
    (b : ℕ) (s rest : Text)
    → contains_byte b s ≡ false
    → span_until (λ c. eqb c b) (s ++ b ∷ rest) ≡ s
unfolding span_until contains_byte
span_until-append b [] rest h = ground (arith, eqb_iff b b)
span_until-append b (c ∷ s) rest h = ground (arith, span_until-append b s rest)

-- What is between two marks is found.
between-append :
    (opening inner rest : Text) (b : ℕ) (closing : Text)
    → contains_byte b inner ≡ false
    → (inner == []) ≡ false
    → between opening (λ c. eqb c b) (b ∷ closing) (opening ++ (inner ++ ((b ∷ closing) ++ rest)))
      ≡ some inner
unfolding between
between-append opening inner rest b closing lacks full =
    rw
      (
        drop-length-append opening (inner ++ ((b ∷ closing) ++ rest)),
        span_until-append b inner (closing ++ rest) lacks,
        drop-length-append inner ((b ∷ closing) ++ rest),
        has_prefix-append (b ∷ closing) rest,
        has_prefix-append opening (inner ++ ((b ∷ closing) ++ rest)),
        full,
      )
      refl

replace_matches_skip :
    (match_at : Bool → Text → Match) (start : Bool) (s : Text)
    → replace_matches match_at (length s) start s ≡ []
unfolding replace_matches
replace_matches_skip match_at start [] = refl
replace_matches_skip match_at start (c ∷ s) = replace_matches_skip match_at false s

-- A match and the rest after it.
abbrev put_out : (Bool → Text → Match) → Text → ℕ → Text → Match → Text
put_out match_at s c rest none = c ∷ rest
put_out match_at s c rest (some (n, out)) = out ++ replace_matches match_at n false s

replace_matches-put_out :
    (match_at : Bool → Text → Match) (start : Bool) (c : ℕ) (s : Text)
    → replace_matches match_at 0 start (c ∷ s)
      ≡ put_out match_at s c (replace_matches match_at 0 false s) (match_at start (c ∷ s))
unfolding replace_matches
replace_matches-put_out match_at start c s = elim (Option-cases (match_at start (c ∷ s))) [
  | inl e ↦ rw (e, replace_matches) refl
  | inr (found, e) ↦
      rw (e, replace_matches)
        (ap (λ m. found.1 ++ replace_matches match_at (left_over m) false s) e)
]

-- The text of a link in Markdown.
abbrev pub markdown_link : Text → Text → Text
markdown_link text url = lit "[" ++ (text ++ (lit "](" ++ (url ++ lit ")")))

link_at-markdown_link :
    (text url : Text)
    → contains_byte 93 text ≡ false
    → contains_byte 41 url ≡ false
    → (text == []) ≡ false
    → (url == []) ≡ false
    → link_at true (markdown_link text url) ≡ some (length text + length url + 3, link text url)
unfolding link_at
link_at-markdown_link text url t u full named =
    let rest = lit "](" ++ (url ++ lit ")") in
    let found : between (lit "](") (λ c. eqb c 41) (lit ")") (drop (length text) (text ++ rest))
        ≡ some url =
      rw (drop-length-append text rest) (between-append (lit "](") url [] 41 [] u named) in
    rw (between-append (lit "[") text (url ++ lit ")") 93 (lit "(") t full, link_at)
      (rw (found, link_at) refl)

append_nil : (s : Text) → s ++ [] ≡ s
append_nil [] = refl
append_nil (c ∷ s) = ap (◌∷◌ c) (append_nil s)

length-markdown_link :
    (text url : Text)
    → length (text ++ (lit "](" ++ (url ++ lit ")"))) ≡ length text + length url + 3
length-markdown_link text url =
    omega (arith, length-append text (lit "](" ++ (url ++ lit ")")), length-append url (lit ")"))

convert_links-markdown_link :
    (text url : Text)
    → contains_byte 93 text ≡ false
    → contains_byte 41 url ≡ false
    → (text == []) ≡ false
    → (url == []) ≡ false
    → convert_links (markdown_link text url) ≡ link text url
unfolding convert_links
convert_links-markdown_link text url t u full named =
    let rest = text ++ (lit "](" ++ (url ++ lit ")")) in
    let skipped : replace_matches link_at (length text + length url + 3) false rest ≡ [] =
      rw (← (length-markdown_link text url)) (replace_matches_skip link_at false rest) in
    replace_matches-put_out link_at true 91 rest
    ∙ ap (put_out link_at rest 91 (replace_matches link_at 0 false rest))
        (link_at-markdown_link text url t u full named)
    ∙ ap (λ z. link text url ++ z) skipped
    ∙ append_nil (link text url)

escape_string-append : (x y : Text) → escape_string (x ++ y) ≡ escape_string x ++ escape_string y
unfolding escape_string
escape_string-append [] y = refl
escape_string-append (c ∷ x) y =
    ap (λ z. escape_byte c ++ z) (escape_string-append x y)
    ∙ sym (append_assoc (escape_byte c) (escape_string x) (escape_string y))

contains-append :
    (b : ℕ) (x y : Text) → contains_byte b (x ++ y) ≡ (contains_byte b x || contains_byte b y)
unfolding contains_byte
contains-append b [] y = refl
contains-append b (c ∷ x) y = ground (arith, contains-append b x y)

-- Escaping makes no bracket.
escape_byte-brackets :
    (c : ℕ)
    → (contains_byte 93 (escape_byte c) ≡ eqb c 93) × (contains_byte 41 (escape_byte c) ≡ eqb c 41)
unfolding escape_byte contains_byte
escape_byte-brackets c = (ground arith, ground arith)

escape_string-brackets :
    (s : Text)
    → (contains_byte 93 (escape_string s) ≡ contains_byte 93 s)
      × (contains_byte 41 (escape_string s) ≡ contains_byte 41 s)
unfolding escape_string contains_byte
escape_string-brackets [] = (refl, refl)
escape_string-brackets (c ∷ s) =
    let (text, url) = escape_byte-brackets c in
    let (texts, urls) = escape_string-brackets s in
    (
      contains-append 93 (escape_byte c) (escape_string s) ∙ rw (text, texts) refl,
      contains-append 41 (escape_byte c) (escape_string s) ∙ rw (url, urls) refl,
    )

escape_string-nonempty : (s : Text) → (s == []) ≡ false → (escape_string s == []) ≡ false
unfolding escape_string escape_byte ◌==◌
escape_string-nonempty [] h = absurd (ground arith)
escape_string-nonempty (c ∷ s) h = ground arith

escape_string-markdown_link :
    (text url : Text)
    → escape_string (markdown_link text url)
      ≡ markdown_link (escape_string text) (escape_string url)
unfolding escape_string escape_byte
escape_string-markdown_link text url = ap (◌∷◌ 91) (
    escape_string-append text (lit "](" ++ (url ++ lit ")"))
    ∙ ap (λ s. escape_string text ++ (93 ∷ 40 ∷ s)) (escape_string-append url (lit ")")))

-- In an escaped text, a link whose text has no `]`, whose address has no `)`, neither of them empty, and
-- whose escaped address is valid, becomes an anchor with the escaped text and the address escaped twice.
pub convert_links-escape_string :
    (text url : Text)
    → contains_byte 93 text ≡ false
    → contains_byte 41 url ≡ false
    → (text == []) ≡ false
    → (url == []) ≡ false
    → is_valid_url (escape_string url) ≡ true
    → convert_links (escape_string (markdown_link text url))
      ≡ lit "<a href=\""
        ++ escape_string (escape_string url)
        ++ lit "\">"
        ++ escape_string text
        ++ lit "</a>"
unfolding link
convert_links-escape_string text url t u full named valid =
    ap convert_links (escape_string-markdown_link text url)
    ∙ convert_links-markdown_link (escape_string text) (escape_string url)
        ((escape_string-brackets text).0 ∙ t) ((escape_string-brackets url).1 ∙ u)
        (escape_string-nonempty text full) (escape_string-nonempty url named)
    ∙ rw valid refl
