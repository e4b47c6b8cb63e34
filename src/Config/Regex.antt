-- ===== src/Config/Regex.antt =====
-- The regular expressions of `apply-config.js`, as sequences of pieces, and how the language runs
-- them: piece by piece, with a repetition as long as it can be (greedy) or as short (lazy), and a
-- shorter or longer try where what follows does not match.
pub mod Laws
pub mod Complete
pub mod First
pub mod Shortest
pub mod Replace
use Prim.Native.Char.{Char, code}
use satosa_saml2spid.Base.{
  String, ℕ, suc, ◌<>◌, Bool, true, false, not, ◌&&◌, ◌||◌, Option, none, some, List, [], ◌∷◌, leb,
  eqb, if◌then◌else◌,
}

abbrev pub Class : Type 0
Class = ℕ → Bool

pub data Piece : Type 0 where
  -- A text, one of several texts, and one character.
  lit : String → Piece
  choice : List String → Piece
  one : Class → Piece
  -- `[…]*`, `[…]*?` and `[…]?`.
  many lazy maybe : Class → Piece
  -- `\b`, `(?<![…])`, `(?![…])` and `$`.
  boundary : Piece
  not_behind not_ahead : Class → Piece
  at_end : Piece

abbrev pub Pattern : Type 0
Pattern = List Piece

-- `\w`, and a character before or after that is one.
unfoldable pub is_word : Class
is_word c =
    leb b'a' c && leb c b'z' || leb b'A' c && leb c b'Z' || leb b'0' c && leb c b'9' || eqb c b'_'

abbrev pub holds_of : Class → Option ℕ → Bool
holds_of p none = false
holds_of p (some c) = p c

unfoldable pub first_code : String → Option ℕ
first_code String.[] = none
first_code (String.◌∷◌ c s) = some (code c)

-- What a match has read, piece by piece, and the rest of the text.
abbrev pub Found : Type 0
Found = Option (List String × String)

-- A match of what follows, behind a character and at a text.
abbrev pub Next : Type 0
Next = Option ℕ → String → Found

unfoldable pub with_text : String → Found → Found
with_text t none = none
with_text t (some (ts, rest)) = some (t ∷ ts, rest)

-- A character more for the piece that was read last.
unfoldable pub with_char : Char → Found → Found
with_char c none = none
with_char c (some ([], rest)) = some (String.◌∷◌ c "" ∷ [], rest)
with_char c (some (t ∷ ts, rest)) = some (String.◌∷◌ c t ∷ ts, rest)

unfoldable pub or_try : Found → Found → Found
or_try none g = g
or_try (some f) g = some f

unfoldable pub match_lit : String → Next → Next
unfolding with_text with_char
match_lit String.[] next behind s = with_text "" (next behind s)
match_lit (String.◌∷◌ d t) next behind String.[] = none
match_lit (String.◌∷◌ d t) next behind (String.◌∷◌ c s) =
    let rest = match_lit t next (some (code c)) s in
    if eqb (code c) (code d) then with_char c rest else none

unfoldable pub match_choice : List String → Next → Next
unfolding match_lit or_try
match_choice [] next behind s = none
match_choice (t ∷ ts) next behind s =
    or_try (match_lit t next behind s) (match_choice ts next behind s)

unfoldable pub match_many : Class → Next → Next
unfolding with_text with_char or_try
match_many p next behind String.[] = with_text "" (next behind "")
match_many p next behind (String.◌∷◌ c s) =
    let longer = with_char c (match_many p next (some (code c)) s) in
    let here = with_text "" (next behind (String.◌∷◌ c s)) in
    if p (code c) then or_try longer here else here

unfoldable pub match_lazy : Class → Next → Next
unfolding with_text with_char or_try
match_lazy p next behind String.[] = with_text "" (next behind "")
match_lazy p next behind (String.◌∷◌ c s) =
    let longer = with_char c (match_lazy p next (some (code c)) s) in
    let here = with_text "" (next behind (String.◌∷◌ c s)) in
    if p (code c) then or_try here longer else here

unfoldable pub match_one : Class → Next → Next
unfolding with_text
match_one p next behind String.[] = none
match_one p next behind (String.◌∷◌ c s) =
    if p (code c) then with_text (String.◌∷◌ c "") (next (some (code c)) s) else none

-- What a piece with no text asks of the characters around it.
unfoldable pub allows : Piece → Option ℕ → Option ℕ → Bool
unfolding is_word
allows boundary behind ahead =
    holds_of is_word behind && not (holds_of is_word ahead)
    || not (holds_of is_word behind) && holds_of is_word ahead
allows (not_behind p) behind ahead = not (holds_of p behind)
allows (not_ahead p) behind ahead = not (holds_of p ahead)
allows at_end behind none = true
allows at_end behind (some c) = false
allows _ behind ahead = false

unfoldable pub match_piece : Piece → Next → Next
unfolding match_lit match_choice match_many match_lazy match_one or_try allows first_code with_text
match_piece (lit t) next behind s = match_lit t next behind s
match_piece (choice ts) next behind s = match_choice ts next behind s
match_piece (one p) next behind s = match_one p next behind s
match_piece (many p) next behind s = match_many p next behind s
match_piece (lazy p) next behind s = match_lazy p next behind s
match_piece (maybe p) next behind s =
    or_try (match_one p next behind s) (with_text "" (next behind s))
match_piece boundary next behind s =
    if allows boundary behind (first_code s) then with_text "" (next behind s) else none
match_piece (not_behind p) next behind s =
    if allows (not_behind p) behind (first_code s) then with_text "" (next behind s) else none
match_piece (not_ahead p) next behind s =
    if allows (not_ahead p) behind (first_code s) then with_text "" (next behind s) else none
match_piece at_end next behind s =
    if allows at_end behind (first_code s) then with_text "" (next behind s) else none

unfoldable pub match_at : Pattern → Next
match_at [] behind s = some ([], s)
match_at (p ∷ ps) behind s = match_piece p (match_at ps) behind s

-- What was read by the pieces of a match.
unfoldable pub concat : List String → String
concat [] = ""
concat (t ∷ ts) = t <> concat ts

-- How many characters a text has.
abbrev pub size : String → ℕ
size String.[] = 0
size (String.◌∷◌ c s) = suc (size s)

-- The first place of a match, from a character on: the text before, what was read, the text after.
pub record Match : Type 0 where
  pub before : String
  pub texts : List String
  pub after : String

-- A match at the place itself, or the first one behind its first character.
unfoldable pub here_or : Found → Option Match → Option Match
here_or none later = later
here_or (some (ts, rest)) later = some (record { before = ""; texts = ts; after = rest })

unfoldable pub behind_char : Char → Option Match → Option Match
behind_char c none = none
behind_char c (some m) = some (record m { before = String.◌∷◌ c m.before })

unfoldable pub exec_from : Pattern → Option ℕ → String → Option Match
unfolding match_at here_or behind_char
exec_from ps behind String.[] = here_or (match_at ps behind "") none
exec_from ps behind (String.◌∷◌ c s) =
    here_or (match_at ps behind (String.◌∷◌ c s)) (behind_char c (exec_from ps (some (code c)) s))

abbrev pub is_match : Option Match → Bool
is_match none = false
is_match (some m) = true

-- `re.exec(s)` and `re.test(s)`.
unfoldable pub exec : Pattern → String → Option Match
unfolding exec_from
exec ps s = exec_from ps none s

unfoldable pub test : Pattern → String → Bool
unfolding exec
test ps s = is_match (exec ps s)
