-- ===== src/Config/Html/Laws.antt =====
-- What the HTML transforms change, and what they leave alone.
use text.Mathlib.TextLemmas.{nil-append, append_assoc as text_assoc}
use satosa_saml2spid.Base.{
  String, ℕ, ◌≤◌, sym, eq_refl, ◌<>◌, ◌≡◌, refl, ap, subst, ◌∙◌, ◌⊎◌, inl, inr, true, false, Option,
  none, List, [], ◌∷◌, eq_iff, Bool-cases, is_space,
}
use satosa_saml2spid.Config.Regex.{Pattern, lit, one, many, size, concat, Match, test}
use satosa_saml2spid.Config.Regex.Laws.{last_code, Reads, is_one, all_in, fits}
use satosa_saml2spid.Config.Regex.First.{Occurs, exec-first, test_iff}
use satosa_saml2spid.Config.Regex.Replace.{replace_first, by_text}
use satosa_saml2spid.Config.Regex.Replace.Laws.{
  replace_first-none, replace_first-some, replace_first-exec, has_dollar, by_text-around,
}
use satosa_saml2spid.Config.Html.Escape.{literal-escape_reg_exp}
use satosa_saml2spid.Config.Html.{
  attr_re, attr_groups, set_attr_in_tag, id_tag_re, set_html_attr_by_id, class_tag_re,
  set_html_attr_by_class, not_quote,
}

-- A tag in which the attribute has this value, between a text before it and a text after it.
abbrev pub with_attr : String → String → String → String → String → String
with_attr before space attr value after =
    before <> (space <> (attr <> ("=\"" <> (value <> ("\"" <> after)))))

-- Where the attribute stands in a tag, with its value.
pub record HasAttr (tag attr old before space after : String) : Type 0 where
  pub spaced : is_one is_space space ≡ true
  pub unquoted : all_in not_quote old ≡ true
  pub stands : tag ≡ with_attr before space attr old after

abbrev attr_pieces : String → Pattern
attr_pieces attr = one is_space ∷ lit attr ∷ lit "=\"" ∷ many not_quote ∷ lit "\"" ∷ []

attr_re-lit : (attr : String) → attr_re attr ≡ attr_pieces attr
unfolding attr_re
attr_re-lit attr = rw (literal-escape_reg_exp attr, attr_re) refl

-- The tag with an attribute and the same tag with another value of it, at a place with no more than so
-- many characters before it.
abbrev pub Sets : String → String → String → ℕ → String → Type 0
Sets tag attr value most result =
    (before : String) × (space : String) × (old : String) × (after : String) × HasAttr tag attr old
      before space after
    × (size before ≤ most)
    × (result ≡ with_attr before space attr value after)

concat-five :
    (a b c d e after : String)
    → concat (a ∷ b ∷ c ∷ d ∷ e ∷ []) <> after ≡ a <> (b <> (c <> (d <> (e <> after))))
unfolding concat
concat-five a b c d e after = simp (text_assoc, nil-append)

group-five :
    (a b c v e after : String)
    → ((a <> b <> c) <> v <> e) <> after ≡ a <> (b <> (c <> (v <> (e <> after))))
group-five a b c v e after = simp text_assoc

Sets-read :
    (tag attr value result before after : String) (most : ℕ) (behind : Option ℕ) (ts : List String)
    → Reads (attr_pieces attr) behind ts after
    → size before ≤ most
    → tag ≡ before <> (concat ts <> after)
    → has_dollar value ≡ false
    → result ≡ before <> by_text attr_groups ("$1" <> value <> "$2") before ts after <> after
    → Sets tag attr value most result
unfolding fits concat attr_groups
Sets-read tag attr value result before after most behind [] h l t d r = elim h [ ]
Sets-read tag attr value result before after most behind (_ ∷ []) h l t d r = elim h.1 [ ]
Sets-read tag attr value result before after most behind (_ ∷ _ ∷ []) h l t d r = elim h.1.1 [ ]
Sets-read tag attr value result before after most behind (_ ∷ _ ∷ _ ∷ []) h l t d r =
    elim h.1.1.1 [ ]
Sets-read tag attr value result before after most behind (_ ∷ _ ∷ _ ∷ _ ∷ []) h l t d r =
    elim h.1.1.1.1 [ ]
Sets-read tag attr value result before after most behind (space ∷ name ∷ eq ∷ old ∷ quote ∷ []) h l
      t d r =
    let n = (eq_iff name attr).0 h.1.0 in
    let e = (eq_iff eq "=\"").0 h.1.1.0 in
    let q = (eq_iff quote "\"").0 h.1.1.1.1.0 in
    let same : (v : String)
        → (space <> (name <> (eq <> (v <> (quote <> after)))))
          ≡ (space <> (attr <> ("=\"" <> (v <> ("\"" <> after))))) =
      λ v. cc in
    let f =
      by_text-around attr_groups value before after (space <> name <> eq) quote
        (space ∷ name ∷ eq ∷ old ∷ quote ∷ []) d refl in
    (
      before,
      space,
      old,
      after,
      record {
        spaced = h.0;
        unquoted = h.1.1.1.0;
        stands = t ∙ ap (λ x. before <> x) (concat-five space name eq old quote after ∙ same old);
      },
      l,
      r
          ∙ ap (λ x. before <> (x <> after)) f
          ∙ ap (λ x. before <> x) (group-five space name eq value quote after ∙ same value),
    )
Sets-read tag attr value result before after most behind (_ ∷ _ ∷ _ ∷ _ ∷ _ ∷ _ ∷ ts) h l t d r =
    elim h.1.1.1.1.1 [ ]

-- Where the attribute stands in a tag, the pattern may read it.
HasAttr-Occurs :
    (tag attr old before space after : String)
    → HasAttr tag attr old before space after
    → Occurs
        (attr_re attr)
        none
        tag
        (record { before = before; texts = space ∷ attr ∷ "=\"" ∷ old ∷ "\"" ∷ []; after = after })
unfolding fits
HasAttr-Occurs tag attr old before space after h = record {
  placed = h.stands ∙ ap (λ x. before <> x) (sym (concat-five space attr "=\"" old "\"" after));
  read =
      subst (λ ps. Reads ps (last_code none before) (space ∷ attr ∷ "=\"" ∷ old ∷ "\"" ∷ []) after)
        (sym (attr_re-lit attr)) (h.spaced, (eq_refl attr, (refl, (h.unquoted, (refl, tt)))));
}

-- Where the value has no `$`, and the tag has the attribute in double quotes anywhere, its value at a place
-- that is not behind that one, so at the first of them, is replaced by the new one, and nothing else in the
-- tag changes.
pub set_attr_in_tag-Sets :
    (tag attr value old before space after : String)
    → has_dollar value ≡ false
    → HasAttr tag attr old before space after
    → Sets tag attr value (size before) (set_attr_in_tag tag attr value)
unfolding set_attr_in_tag
set_attr_in_tag-Sets tag attr value old before space after d h =
    let other : Match = record {
      before = before;
      texts = space ∷ attr ∷ "=\"" ∷ old ∷ "\"" ∷ [];
      after = after;
    } in
    let found = HasAttr-Occurs tag attr old before space after h in
    let reads = (test_iff (attr_re attr) tag).1 (other, found) in
    let (m, e, r) =
      replace_first-exec (attr_re attr) (by_text attr_groups ("$1" <> value <> "$2")) tag reads in
    let (o, l) = exec-first (attr_re attr) tag m other e found in
    Sets-read tag attr value (set_attr_in_tag tag attr value) m.before m.after (size before)
      (last_code none m.before) m.texts
      (subst (λ ps. Reads ps (last_code none m.before) m.texts m.after) (attr_re-lit attr) o.read) l
      o.placed d (rw reads r)

-- Either no place is read by the pattern, and the text stays as it is, or the first place is rewritten
-- between the same text before it and after it.
abbrev pub Rewrites : Pattern → (String → String) → String → String → Type 0
Rewrites ps rewrite html result =
    ((test ps html ≡ false) × (result ≡ html))
    ⊎ ((m : Match) × Occurs ps none html m
        × (result ≡ m.before <> (rewrite (concat m.texts) <> m.after)))

replace_first-Rewrites :
    (ps : Pattern) (rewrite : String → String) (html : String)
    → Rewrites ps rewrite html (replace_first ps (λ before ts after. rewrite (concat ts)) html)
replace_first-Rewrites ps rewrite html = elim (Bool-cases (test ps html)) [
  | inl y ↦ inr (replace_first-some ps (λ before ts after. rewrite (concat ts)) html y)
  | inr n ↦ inl (n, replace_first-none ps (λ before ts after. rewrite (concat ts)) html n)
]

-- Where no tag has the id, the page stays as it is; otherwise one such tag is rewritten, between the
-- same text before it and after it.
pub set_html_attr_by_id-Rewrites :
    (html id attr value : String)
    → Rewrites
        (id_tag_re id)
        (λ tag. set_attr_in_tag tag attr value)
        html
        (set_html_attr_by_id html id attr value)
unfolding set_html_attr_by_id
set_html_attr_by_id-Rewrites html id attr value =
    replace_first-Rewrites (id_tag_re id) (λ tag. set_attr_in_tag tag attr value) html

-- The same for the tags whose classes have the name.
pub set_html_attr_by_class-Rewrites :
    (html class_name attr value : String)
    → Rewrites
        (class_tag_re class_name)
        (λ tag. set_attr_in_tag tag attr value)
        html
        (set_html_attr_by_class html class_name attr value)
unfolding set_html_attr_by_class
set_html_attr_by_class-Rewrites html class_name attr value =
    replace_first-Rewrites (class_tag_re class_name) (λ tag. set_attr_in_tag tag attr value) html
