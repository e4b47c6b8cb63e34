-- ===== src/Config/Html/Escape.antt =====
-- `escapeRegExp`: a value inside a pattern is read as the text that it is.
use Prim.Native.Char.{Char, code}
use text.Mathlib.TextLemmas.{nil-append, cons-append, append-nil as text-nil}
use satosa_saml2spid.Base.{
  String, ℕ, zero, ◌<>◌, ◌≡◌, refl, ap, ◌∙◌, inl, inr, true, false, Option, none, some, [], ◌∷◌,
  eqb, Bool-cases, arith,
}
use satosa_saml2spid.Config.Regex.{
  Pattern, lit, one, concat, size, match_at, match_piece, match_one, with_text,
}
use satosa_saml2spid.Config.Regex.Replace.{Replacer, replace_from, replace_all, by_text, expand}
use satosa_saml2spid.Config.Html.{
  is_syntax, syntax_character, escape_reg_exp, read_literal, literal,
}

abbrev escape_by : Replacer
escape_by = by_text (λ ts. []) "\\$&"

abbrev syntax_re : Pattern
syntax_re = one is_syntax ∷ []

escape_by-one :
    (before after : String) (c : Char)
    → escape_by before (String.◌∷◌ c "" ∷ []) after ≡ String.◌∷◌ "\\" (String.◌∷◌ c "")
unfolding by_text expand concat
escape_by-one before after c = ap (λ x. String.◌∷◌ "\\" x) (text-nil _ ∙ text-nil _)

syntax-yes :
    (behind : Option ℕ) (c : Char) (s : String)
    → is_syntax (code c) ≡ true
    → match_at syntax_re behind (String.◌∷◌ c s) ≡ some (String.◌∷◌ c "" ∷ [], s)
unfolding match_at match_piece match_one with_text
syntax-yes behind c s y = rw y refl

syntax-no :
    (behind : Option ℕ) (c : Char) (s : String)
    → is_syntax (code c) ≡ false
    → match_at syntax_re behind (String.◌∷◌ c s) ≡ none
unfolding match_at match_piece match_one
syntax-no behind c s n = rw n refl

one-size : (c : Char) → size (concat (String.◌∷◌ c "" ∷ [])) ≡ 1
unfolding concat
one-size c = ap size (text-nil (String.◌∷◌ c ""))

abbrev escaped : String → Option ℕ → String → String
escaped seen behind s = replace_from syntax_re escape_by seen behind zero s

escaped-syntax :
    (seen : String) (behind : Option ℕ) (c : Char) (s : String)
    → is_syntax (code c) ≡ true
    → escaped seen behind (String.◌∷◌ c s)
      ≡ String.◌∷◌ "\\" (String.◌∷◌ c (escaped (seen <> String.◌∷◌ c "") (some (code c)) s))
unfolding replace_from
escaped-syntax seen behind c s y =
    rw (syntax-yes behind c s y, replace_from, one-size c, escape_by-one seen s c)
      (cons-append _ _ _
        ∙ ap (λ x. String.◌∷◌ "\\" x) (cons-append _ _ _ ∙ ap (λ x. String.◌∷◌ c x) (nil-append _)))

escaped-plain :
    (seen : String) (behind : Option ℕ) (c : Char) (s : String)
    → is_syntax (code c) ≡ false
    → escaped seen behind (String.◌∷◌ c s)
      ≡ String.◌∷◌ c (escaped (seen <> String.◌∷◌ c "") (some (code c)) s)
unfolding replace_from
escaped-plain seen behind c s n = rw (syntax-no behind c s n, replace_from) refl

escaped-nil : (seen : String) (behind : Option ℕ) → escaped seen behind "" ≡ ""
unfolding replace_from match_at match_piece match_one
escaped-nil seen behind = refl

read-nil : read_literal false "" ≡ some ""
unfolding read_literal
read-nil = refl

-- The class of `escapeRegExp` has every syntax character, and no other.
same_class : (c : ℕ) → syntax_character c ≡ is_syntax c
unfolding is_syntax syntax_character
same_class c = ground arith

read-syntax :
    (c : Char) (t s : String)
    → is_syntax (code c) ≡ true
    → read_literal false t ≡ some s
    → read_literal false (String.◌∷◌ "\\" (String.◌∷◌ c t)) ≡ some (String.◌∷◌ c s)
unfolding read_literal
read-syntax c t s y h = rw (same_class (code c), y, read_literal, h) refl

plain-char : (c : ℕ) → is_syntax c ≡ false → eqb c 0x5c ≡ false
unfolding is_syntax
plain-char c n = ground arith

read-plain :
    (c : Char) (t s : String)
    → is_syntax (code c) ≡ false
    → read_literal false t ≡ some s
    → read_literal false (String.◌∷◌ c t) ≡ some (String.◌∷◌ c s)
unfolding read_literal
read-plain c t s n h = rw (plain-char (code c) n, read_literal, same_class (code c), n, h) refl

read-escaped :
    (seen : String) (behind : Option ℕ) (s : String)
    → read_literal false (escaped seen behind s) ≡ some s
read-escaped seen behind String.[] = ap (read_literal false) (escaped-nil seen behind) ∙ read-nil
read-escaped seen behind (String.◌∷◌ c s) =
    let rest = read-escaped (seen <> String.◌∷◌ c "") (some (code c)) s in
    elim (Bool-cases (is_syntax (code c))) [
      | inl y ↦
          ap (read_literal false) (escaped-syntax seen behind c s y) ∙ read-syntax c _ s y rest
      | inr n ↦ ap (read_literal false) (escaped-plain seen behind c s n) ∙ read-plain c _ s n rest
    ]

-- The source that `escapeRegExp` makes of a text reads back as that text.
pub read_literal-escape_reg_exp :
    (value : String) → read_literal false (escape_reg_exp value) ≡ some value
unfolding escape_reg_exp replace_all
read_literal-escape_reg_exp value = read-escaped "" none value

pub literal-escape_reg_exp : (value : String) → literal (escape_reg_exp value) ≡ lit value
unfolding literal
literal-escape_reg_exp value = rw (read_literal-escape_reg_exp value, literal) refl
