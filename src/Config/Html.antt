-- ===== src/Config/Html.antt =====
-- The HTML transforms: one attribute or one text of the element with an id or a class, and the paths
-- and versions in the attributes.
pub mod Logo
pub mod Escape
pub mod Attr
pub mod Text
pub mod Laws
use Prim.Native.Char.{code}
use satosa_saml2spid.Base.{
  String, ◌<>◌, Bool, true, false, not, ◌||◌, Option, none, some, List, [], ◌∷◌, eqb, any, is_space,
  if◌then◌else◌,
}
use satosa_saml2spid.Config.Regex.{
  Class, Piece, lit, choice, one, many, lazy, maybe, not_behind, not_ahead, at_end, Pattern, concat,
  is_word, test,
}
use satosa_saml2spid.Config.Regex.Replace.{Replacer, replace_first, replace_all, by_text}

-- `[.*+?^${}()|[\]\\]`, the characters that the syntax of patterns reads.
unfoldable pub is_syntax : Class
is_syntax c = any (eqb c) (
    b'.' ∷ b'*' ∷ b'+' ∷ b'?' ∷ b'^' ∷ b'$' ∷ b'{' ∷ b'}' ∷ b'(' ∷ b')' ∷ b'|' ∷ b'[' ∷ b']' ∷ 0x5c
    ∷ [])

unfoldable pub escape_reg_exp : String → String
unfolding is_syntax replace_all by_text
escape_reg_exp value = replace_all (one is_syntax ∷ []) (by_text (λ ts. []) "\\$&") value

-- `SyntaxCharacter` of the ECMAScript grammar of patterns: what does not stand for itself in a source, and
-- may stand behind a backslash for itself.
unfoldable pub syntax_character : Class
syntax_character c = any (eqb c) (
    b'^' ∷ b'$' ∷ 0x5c ∷ b'.' ∷ b'*' ∷ b'+' ∷ b'?' ∷ b'(' ∷ b')' ∷ b'[' ∷ b']' ∷ b'{' ∷ b'}' ∷ b'|'
    ∷ [])

-- A text as the source of a pattern, by that grammar: a character that stands for itself, or a backslash
-- and a syntax character. A source with more in it is no text.
unfoldable pub read_literal : Bool → String → Option String
unfolding syntax_character
read_literal true String.[] = none
read_literal false String.[] = some ""
read_literal true (String.◌∷◌ c s) = elim (syntax_character (code c)) [
  | true ↦ elim (read_literal false s) [ none ↦ none | some t ↦ some (String.◌∷◌ c t) ]
  | false ↦ none
]
read_literal false (String.◌∷◌ c s) = elim (eqb (code c) 0x5c) [
  | true ↦ read_literal true s
  | false ↦ elim (syntax_character (code c)) [
    | true ↦ none
    | false ↦ elim (read_literal false s) [ none ↦ none | some t ↦ some (String.◌∷◌ c t) ]
  ]
]

-- A source inside a pattern, which matches nothing where the source is no text.
unfoldable pub literal : String → Piece
unfolding read_literal
literal source = elim (read_literal false source) [ none ↦ choice [] | some t ↦ lit t ]

unfoldable pub escape_html_attr : String → String
unfolding replace_all by_text
escape_html_attr value =
    let amp = replace_all (lit "&" ∷ []) (by_text (λ ts. []) "&amp;") value in
    let lt = replace_all (lit "<" ∷ []) (by_text (λ ts. []) "&lt;") amp in
    let gt = replace_all (lit ">" ∷ []) (by_text (λ ts. []) "&gt;") lt in
    replace_all (lit "\"" ∷ []) (by_text (λ ts. []) "&quot;") gt

-- `[^>]`, `[^"]`, `[\w-]` and `[\s\S]`.
abbrev pub not_gt : Class
not_gt c = not (eqb c b'>')

abbrev pub not_quote : Class
not_quote c = not (eqb c b'"')

abbrev pub in_token : Class
in_token c = is_word c || eqb c b'-'

abbrev pub any_char : Class
any_char c = true

-- `(\s…=")[^"]*(")`.
unfoldable pub attr_re : String → Pattern
unfolding escape_reg_exp literal is_space
attr_re attr =
    one is_space ∷ literal (escape_reg_exp attr) ∷ lit "=\"" ∷ many not_quote ∷ lit "\"" ∷ []

unfoldable pub attr_groups : List String → List String
attr_groups (space ∷ name ∷ eq ∷ value ∷ quote ∷ []) = (space <> name <> eq) ∷ quote ∷ []
attr_groups _ = []

-- `/\/?>$/`.
unfoldable pub tag_end_re : Pattern
tag_end_re = maybe (λ c. eqb c b'/') ∷ lit ">" ∷ at_end ∷ []

unfoldable pub set_attr_in_tag : String → String → String → String
unfolding attr_re attr_groups tag_end_re replace_first by_text test concat
set_attr_in_tag tag attr value =
    if test (attr_re attr) tag
    then replace_first (attr_re attr) (by_text attr_groups ("$1" <> value <> "$2")) tag
    else replace_first tag_end_re
        (λ before ts after. " " <> attr <> "=\"" <> value <> "\"" <> concat ts) tag

-- The replacement of a tag by the same tag with an attribute set.
abbrev pub set_attr : String → String → Replacer
set_attr attr value before ts after = set_attr_in_tag (concat ts) attr value

unfoldable pub id_tag_re : String → Pattern
unfolding escape_reg_exp literal is_space
id_tag_re id =
    lit "<"
    ∷ many not_gt
    ∷ one is_space
    ∷ lit "id=\""
    ∷ literal (escape_reg_exp id)
    ∷ lit "\""
    ∷ many not_gt
    ∷ lit ">"
    ∷ []

unfoldable pub set_html_attr_by_id : String → String → String → String → String
unfolding set_attr_in_tag id_tag_re replace_first concat
set_html_attr_by_id html id attr value = replace_first (id_tag_re id) (set_attr attr value) html

unfoldable pub class_tag_re : String → Pattern
unfolding escape_reg_exp literal is_space is_word
class_tag_re class_name =
    lit "<"
    ∷ many not_gt
    ∷ one is_space
    ∷ lit "class=\""
    ∷ many not_quote
    ∷ not_behind in_token
    ∷ literal (escape_reg_exp class_name)
    ∷ not_ahead in_token
    ∷ many not_quote
    ∷ lit "\""
    ∷ many not_gt
    ∷ lit ">"
    ∷ []

unfoldable pub set_html_attr_by_class : String → String → String → String → String
unfolding set_attr_in_tag class_tag_re replace_first concat
set_html_attr_by_class html class_name attr value =
    replace_first (class_tag_re class_name) (set_attr attr value) html

unfoldable pub id_text_re : String → Pattern
unfolding escape_reg_exp literal is_space
id_text_re id =
    one is_space
    ∷ lit "id=\""
    ∷ literal (escape_reg_exp id)
    ∷ lit "\""
    ∷ many not_gt
    ∷ lit ">"
    ∷ lazy any_char
    ∷ lit "<"
    ∷ []

unfoldable pub set_text : String → Replacer
unfolding concat
set_text value before (space ∷ name ∷ id ∷ quote ∷ more ∷ gt ∷ text ∷ lt ∷ []) after =
    (space <> name <> id <> quote <> more <> gt) <> value <> lt
set_text value before ts after = concat ts

unfoldable pub set_html_text_by_id : String → String → String → String
unfolding id_text_re set_text replace_first
set_html_text_by_id html id value = replace_first (id_text_re id) (set_text value) html

-- `/\/+$/` and `/((?:href|src|xlink:href)=")\/static\//g`.
unfoldable pub slashes_re : Pattern
slashes_re = one (λ c. eqb c b'/') ∷ many (λ c. eqb c b'/') ∷ at_end ∷ []

unfoldable pub static_re : Pattern
static_re = choice ("href" ∷ "src" ∷ "xlink:href" ∷ []) ∷ lit "=\"" ∷ lit "/static/" ∷ []

unfoldable pub static_groups : List String → List String
static_groups (name ∷ eq ∷ path ∷ []) = (name <> eq) ∷ []
static_groups _ = []

unfoldable pub rewrite_static_base_path : String → String → String
unfolding slashes_re static_re static_groups replace_first replace_all by_text
rewrite_static_base_path html base_path =
    let base = replace_first slashes_re (by_text (λ ts. []) "") base_path in
    replace_all static_re (by_text static_groups ("$1" <> base <> "/")) html

-- `/(\?v=)[^"'&\s]+/g`.
unfoldable pub in_version : Class
unfolding is_space
in_version c = not (any (eqb c) (b'"' ∷ 0x27 ∷ b'&' ∷ []) || is_space c)

unfoldable pub version_re : Pattern
unfolding in_version
version_re = lit "?v=" ∷ one in_version ∷ many in_version ∷ []

unfoldable pub version_groups : List String → List String
version_groups (v ∷ first ∷ more ∷ []) = v ∷ []
version_groups _ = []

unfoldable pub set_cache_bust_version : String → String → String
unfolding version_re version_groups replace_all by_text
set_cache_bust_version html version =
    replace_all version_re (by_text version_groups ("$1" <> version)) html

unfoldable pub fonts_re : Pattern
unfolding is_space
fonts_re =
    lit "window.__PUBLIC_PATH__"
    ∷ many is_space
    ∷ lit "="
    ∷ many is_space
    ∷ lit "\""
    ∷ many not_quote
    ∷ lit "\""
    ∷ []

unfoldable pub fonts_groups : List String → List String
fonts_groups (name ∷ space ∷ eq ∷ space' ∷ quote ∷ value ∷ close ∷ []) =
    (name <> space <> eq <> space' <> quote) ∷ close ∷ []
fonts_groups _ = []

unfoldable pub set_public_fonts_path : String → String → String
unfolding fonts_re fonts_groups replace_first by_text
set_public_fonts_path html value =
    replace_first fonts_re (by_text fonts_groups ("$1" <> value <> "$2")) html
