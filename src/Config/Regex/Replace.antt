-- ===== src/Config/Regex/Replace.antt =====
-- `s.replace(re, …)`: with a function of what was read, and with a text in which `$` stands for
-- parts of the match.
pub mod Laws
use Prim.Native.Char.{Char, code}
use satosa_saml2spid.Base.{
  String, ℕ, zero, suc, ◌+◌, ◌-◌, ◌*◌, ◌<>◌, Bool, true, false, ◌&&◌, Option, none, some, List, [],
  ◌∷◌, leb, eqb, get_elem?,
}
use satosa_saml2spid.Config.Regex.{Pattern, match_at, concat, Match, exec, size}

-- The text for a match: of the text before it, what was read, and the text after it.
abbrev pub Replacer : Type 0
Replacer = String → List String → String → String

unfoldable pub put_match : Replacer → Match → String
put_match f m = m.before <> f m.before m.texts m.after <> m.after

unfoldable pub replace_first : Pattern → Replacer → String → String
unfolding put_match exec
replace_first ps f s = elim (exec ps s) [ none ↦ s | some m ↦ put_match f m ]

-- The `g` flag: after a match the search goes on behind it. `seen` is the text before the place, and
-- `skip` how much of the last match is still ahead.
unfoldable pub replace_from : Pattern → Replacer → String → Option ℕ → ℕ → String → String
unfolding match_at concat
replace_from ps f seen behind (suc skip) String.[] = ""
replace_from ps f seen behind zero String.[] = elim (match_at ps behind "") [
  | none ↦ ""
  | some (ts, rest) ↦ f seen ts rest
]
replace_from ps f seen behind (suc skip) (String.◌∷◌ c s) =
    replace_from ps f (seen <> String.◌∷◌ c "") (some (code c)) skip s
replace_from ps f seen behind zero (String.◌∷◌ c s) = elim (match_at ps behind (String.◌∷◌ c s)) [
  | none ↦ String.◌∷◌ c (replace_from ps f (seen <> String.◌∷◌ c "") (some (code c)) zero s)
  | some (ts, rest) ↦ f seen ts rest <> (elim (size (concat ts)) [
    | zero ↦ String.◌∷◌ c (replace_from ps f (seen <> String.◌∷◌ c "") (some (code c)) zero s)
    | suc skip ↦ replace_from ps f (seen <> String.◌∷◌ c "") (some (code c)) skip s
  ])
]

unfoldable pub replace_all : Pattern → Replacer → String → String
unfolding replace_from
replace_all ps f s = replace_from ps f "" none zero s

-- What `$…` stands for in a replacement text: `groups` are the texts of the groups, from the first.
pub record Parts : Type 0 where
  pub prefix : String
  pub matched : String
  pub suffix : String
  pub groups : List String

abbrev pub is_digit : ℕ → Bool
is_digit c = leb b'0' c && leb c b'9'

abbrev pub group_at : ℕ → List String → Option String
group_at zero groups = none
group_at (suc n) groups = get_elem? groups n

-- In a replacement text: outside, behind a `$`, and behind a `$` and a digit.
pub data Reading : Type 0 where
  outside dollar : Reading
  digit : Char → Reading

-- `$1` with a group of this number, and as it stands without one.
unfoldable pub one_digit : Parts → Char → String
one_digit p d = elim (group_at (code d - b'0') p.groups) [
  | some g ↦ g
  | none ↦ "$" <> String.◌∷◌ d ""
]

abbrev pub two_digits : Parts → Char → Char → Option String
two_digits p d e = elim (is_digit (code e)) [
  | true ↦ group_at (10 * (code d - b'0') + (code e - b'0')) p.groups
  | false ↦ none
]

unfoldable pub expand : Parts → Reading → String → String
unfolding one_digit
expand p outside String.[] = ""
expand p dollar String.[] = "$"
expand p (digit d) String.[] = one_digit p d
expand p outside (String.◌∷◌ c s) = elim (eqb (code c) b'$') [
  | true ↦ expand p dollar s
  | false ↦ String.◌∷◌ c (expand p outside s)
]
expand p dollar (String.◌∷◌ c s) = elim (is_digit (code c)) [
  | true ↦ expand p (digit c) s
  | false ↦ elim (eqb (code c) b'$') [
    | true ↦ "$" <> expand p outside s
    | false ↦ elim (eqb (code c) b'&') [
      | true ↦ p.matched <> expand p outside s
      | false ↦ elim (eqb (code c) b'`') [
        | true ↦ p.prefix <> expand p outside s
        | false ↦ elim (eqb (code c) 0x27) [
          | true ↦ p.suffix <> expand p outside s
          | false ↦ "$" <> String.◌∷◌ c (expand p outside s)
        ]
      ]
    ]
  ]
]
expand p (digit d) (String.◌∷◌ c s) = elim (two_digits p d c) [
  | some g ↦ g <> expand p outside s
  | none ↦ one_digit p d <> (elim (eqb (code c) b'$') [
    | true ↦ expand p dollar s
    | false ↦ String.◌∷◌ c (expand p outside s)
  ])
]

-- A replacement text, where the pattern has the groups that `groups` picks.
unfoldable pub by_text : (List String → List String) → String → Replacer
unfolding expand concat
by_text groups template before ts after =
    expand (record { prefix = before; matched = concat ts; suffix = after; groups = groups ts })
      outside template
