-- ===== src/Config/Html/Attr.antt =====
-- `escapeHtmlAttr`: nothing in its result ends an attribute or a tag.
use Prim.Native.Char.{Char, code}
use text.Mathlib.TextLemmas.{nil-append, cons-append, append-nil as text-nil}
use satosa_saml2spid.Base.{
  String, ℕ, zero, ◌<>◌, ◌≡◌, refl, ap, sym, ◌∙◌, inl, inr, true, false, not, ◌&&◌, ◌||◌, Option,
  none, some, List, [], ◌∷◌, eqb, Bool-cases, arith,
}
use satosa_saml2spid.Config.Regex.{
  Class, Pattern, lit, concat, size, match_at, match_piece, match_lit, with_text, with_char,
}
use satosa_saml2spid.Config.Regex.Laws.{all_in}
use satosa_saml2spid.Config.Regex.Replace.{
  Replacer, replace_from, replace_all, Parts, outside, expand, by_text,
}
use satosa_saml2spid.Config.Regex.Replace.Laws.{has_dollar, expand-text}
use satosa_saml2spid.Config.Html.{escape_html_attr}

all_in-append :
    (p : Class) (s t : String) → all_in p s ≡ true → all_in p t ≡ true → all_in p (s <> t) ≡ true
unfolding all_in
all_in-append p String.[] t h k = rw nil-append k
all_in-append p (String.◌∷◌ c s) t h k =
    let rest = all_in-append p s t (ground arith) k in rw (cons-append c s t, all_in) (ground arith)

all_in-weaken :
    (p q : Class) (s : String)
    → ((c : ℕ) → p c ≡ true → q c ≡ true)
    → all_in p s ≡ true
    → all_in q s ≡ true
unfolding all_in
all_in-weaken p q String.[] k h = refl
all_in-weaken p q (String.◌∷◌ c s) k h =
    let rest = all_in-weaken p q s k (ground arith) in
    let here = k (code c) (ground arith) in ground arith

module _ (d : Char) (t : String) (plain : has_dollar t ≡ false) where
  abbrev char_re : Pattern
  char_re = lit (String.◌∷◌ d "") ∷ []

  abbrev by_plain : Replacer
  by_plain = by_text (λ ts. []) t

  by_plain-text : (before after : String) (ts : List String) → by_plain before ts after ≡ t
  unfolding by_text expand
  by_plain-text before after ts =
      let p : Parts = record {
        prefix = before;
        matched = concat ts;
        suffix = after;
        groups = [];
      } in
      ap (expand p outside) (sym (text-nil t)) ∙ expand-text p t "" plain ∙ text-nil t

  char-yes :
      (behind : Option ℕ) (c : Char) (s : String)
      → eqb (code c) (code d) ≡ true
      → match_at char_re behind (String.◌∷◌ c s) ≡ some (String.◌∷◌ c "" ∷ [], s)
  unfolding match_at match_piece match_lit with_text with_char
  char-yes behind c s y = rw y refl

  char-no :
      (behind : Option ℕ) (c : Char) (s : String)
      → eqb (code c) (code d) ≡ false
      → match_at char_re behind (String.◌∷◌ c s) ≡ none
  unfolding match_at match_piece match_lit
  char-no behind c s n = rw n refl

  one-size : (c : Char) → size (concat (String.◌∷◌ c "" ∷ [])) ≡ 1
  unfolding concat
  one-size c = ap size (text-nil (String.◌∷◌ c ""))

  abbrev replaced : String → Option ℕ → String → String
  replaced seen behind s = replace_from char_re by_plain seen behind zero s

  replaced-nil : (seen : String) (behind : Option ℕ) → replaced seen behind "" ≡ ""
  unfolding replace_from match_at match_piece match_lit
  replaced-nil seen behind = refl

  replaced-yes :
      (seen : String) (behind : Option ℕ) (c : Char) (s : String)
      → eqb (code c) (code d) ≡ true
      → replaced seen behind (String.◌∷◌ c s)
        ≡ t <> replaced (seen <> String.◌∷◌ c "") (some (code c)) s
  unfolding replace_from
  replaced-yes seen behind c s y =
      rw
        (
          char-yes behind c s y,
          replace_from,
          one-size c,
          by_plain-text seen s (String.◌∷◌ c "" ∷ []),
        )
        refl

  replaced-no :
      (seen : String) (behind : Option ℕ) (c : Char) (s : String)
      → eqb (code c) (code d) ≡ false
      → replaced seen behind (String.◌∷◌ c s)
        ≡ String.◌∷◌ c (replaced (seen <> String.◌∷◌ c "") (some (code c)) s)
  unfolding replace_from
  replaced-no seen behind c s n = rw (char-no behind c s n, replace_from) refl

  -- A class that holds of the new text, and of every other character, holds of the result.
  all_in-replaced :
      (q : Class) (seen : String) (behind : Option ℕ) (s : String)
      → all_in q t ≡ true
      → all_in (λ c. q c || eqb c (code d)) s ≡ true
      → all_in q (replaced seen behind s) ≡ true
  unfolding all_in
  all_in-replaced q seen behind String.[] a h = ap (all_in q) (replaced-nil seen behind)
  all_in-replaced q seen behind (String.◌∷◌ c s) a h =
      let rest = all_in-replaced q (seen <> String.◌∷◌ c "") (some (code c)) s a (ground arith) in
      elim (Bool-cases (eqb (code c) (code d))) [
        | inl y ↦ ap (all_in q) (replaced-yes seen behind c s y) ∙ all_in-append q t _ a rest
        | inr n ↦ ap (all_in q) (replaced-no seen behind c s n) ∙ ground arith
      ]

-- A character that ends neither an attribute in double quotes nor a tag, and begins none.
abbrev pub is_inert : Class
is_inert c = not (eqb c b'<') && not (eqb c b'>') && not (eqb c b'"')

all_in-any : (s : String) → all_in (λ c. true) s ≡ true
unfolding all_in
all_in-any String.[] = refl
all_in-any (String.◌∷◌ c s) = all_in-any s

abbrev pass : Char → String → String → String
pass d t s = replace_all (lit (String.◌∷◌ d "") ∷ []) (by_text (λ ts. []) t) s

abbrev no_lt : Class
no_lt c = not (eqb c b'<')

abbrev no_tag : Class
no_tag c = not (eqb c b'<') && not (eqb c b'>')

-- The result of `escapeHtmlAttr` has none of `<`, `>` and `"`, whatever the value is.
pub escape_html_attr-inert : (value : String) → all_in is_inert (escape_html_attr value) ≡ true
unfolding escape_html_attr replace_all all_in has_dollar
escape_html_attr-inert value =
    let amp : String = pass "&" "&amp;" value in
    let lt : String = pass "<" "&lt;" amp in
    let gt : String = pass ">" "&gt;" lt in
    let first = all_in-replaced "<" "&lt;" refl no_lt "" none amp refl (
      all_in-weaken (λ c. true) (λ c. no_lt c || eqb c b'<') amp (λ c h. ground arith)
        (all_in-any amp)) in
    let second =
      all_in-replaced ">" "&gt;" refl no_tag "" none lt refl
        (all_in-weaken no_lt (λ c. no_tag c || eqb c b'>') lt (λ c h. ground arith) first) in
    all_in-replaced "\"" "&quot;" refl is_inert "" none gt refl
      (all_in-weaken no_tag (λ c. is_inert c || eqb c b'"') gt (λ c h. ground arith) second)
