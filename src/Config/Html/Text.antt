-- ===== src/Config/Html/Text.antt =====
-- `setHtmlTextById`: the text behind the tag with the id, up to the next tag.
use text.Mathlib.TextLemmas.{nil-append, append_assoc as text_assoc}
use satosa_saml2spid.Base.{
  String, ℕ, ◌<>◌, ◌≡◌, refl, ap, subst, ◌∙◌, true, Option, none, some, List, [], ◌∷◌, eq_iff,
  is_space,
}
use satosa_saml2spid.Config.Regex.{Pattern, lit, one, many, lazy, concat, exec, test}
use satosa_saml2spid.Config.Regex.Laws.{last_code, Reads, is_one, all_in, fits}
use satosa_saml2spid.Config.Regex.Replace.Laws.{replace_first-exec}
use satosa_saml2spid.Config.Regex.First.{exec-Occurs}
use satosa_saml2spid.Config.Regex.Shortest.{Nth, Has, not_lt, piece-Has, lazy-Has, exec-texts}
use satosa_saml2spid.Config.Html.Escape.{literal-escape_reg_exp}
use satosa_saml2spid.Config.Html.{not_gt, any_char, id_text_re, set_text, set_html_text_by_id}

abbrev text_pieces : String → Pattern
text_pieces id =
    one is_space
    ∷ lit "id=\""
    ∷ lit id
    ∷ lit "\""
    ∷ many not_gt
    ∷ lit ">"
    ∷ lazy any_char
    ∷ lit "<"
    ∷ []

id_text_re-lit : (id : String) → id_text_re id ≡ text_pieces id
unfolding id_text_re
id_text_re-lit id = rw (literal-escape_reg_exp id, id_text_re) refl

-- The text that the pattern reads before the next tag has no `<`.
text-Has : (id : String) → Has (λ t. all_in not_lt t ≡ true) 6 (text_pieces id)
text-Has id = piece-Has _ _ _ 5 (
    piece-Has _ _ _ 4
      (piece-Has _ _ _ 3 (piece-Has _ _ _ 2 (piece-Has _ _ _ 1 (piece-Has _ _ _ 0 lazy-Has)))))

-- A page in which the text behind a tag with this id is this one.
abbrev pub with_text_behind : String → String → String → String → String → String → String
with_text_behind before space id more text after =
    before <> (space <> ("id=\"" <> (id <> ("\"" <> (more <> (">" <> (text <> ("<" <> after))))))))

-- The same page with another text there. The text that was there has no `<`, so it ends where the next
-- tag begins.
abbrev pub SetsText : String → String → String → String → Type 0
SetsText html id value result =
    (before : String) × (space : String) × (more : String) × (old : String) × (after : String)
    × (is_one is_space space ≡ true)
    × (all_in not_gt more ≡ true)
    × (all_in not_lt old ≡ true)
    × (html ≡ with_text_behind before space id more old after)
    × (result ≡ with_text_behind before space id more value after)

concat-eight :
    (a b c d e f g h after : String)
    → concat (a ∷ b ∷ c ∷ d ∷ e ∷ f ∷ g ∷ h ∷ []) <> after
      ≡ a <> (b <> (c <> (d <> (e <> (f <> (g <> (h <> after)))))))
unfolding concat
concat-eight a b c d e f g h after = simp (text_assoc, nil-append)

group-eight :
    (a b c d e f v h after : String)
    → ((a <> b <> c <> d <> e <> f) <> v <> h) <> after
      ≡ a <> (b <> (c <> (d <> (e <> (f <> (v <> (h <> after)))))))
group-eight a b c d e f v h after = simp text_assoc

SetsText-read :
    (html id value result before after : String) (behind : Option ℕ) (ts : List String)
    → Reads (text_pieces id) behind ts after
    → Nth (λ t. all_in not_lt t ≡ true) 6 ts
    → html ≡ before <> (concat ts <> after)
    → result ≡ before <> set_text value before ts after <> after
    → SetsText html id value result
unfolding fits set_text
SetsText-read html id value result before after behind [] h f t r = elim h [ ]
SetsText-read html id value result before after behind (_ ∷ []) h f t r = elim h.1 [ ]
SetsText-read html id value result before after behind (_ ∷ _ ∷ []) h f t r = elim h.1.1 [ ]
SetsText-read html id value result before after behind (_ ∷ _ ∷ _ ∷ []) h f t r = elim h.1.1.1 [ ]
SetsText-read html id value result before after behind (_ ∷ _ ∷ _ ∷ _ ∷ []) h f t r =
    elim h.1.1.1.1 [ ]
SetsText-read html id value result before after behind (_ ∷ _ ∷ _ ∷ _ ∷ _ ∷ []) h f t r =
    elim h.1.1.1.1.1 [ ]
SetsText-read html id value result before after behind (_ ∷ _ ∷ _ ∷ _ ∷ _ ∷ _ ∷ []) h f t r =
    elim h.1.1.1.1.1.1 [ ]
SetsText-read html id value result before after behind (_ ∷ _ ∷ _ ∷ _ ∷ _ ∷ _ ∷ _ ∷ []) h f t r =
    elim h.1.1.1.1.1.1.1 [ ]
SetsText-read html id value result before after behind
      (space ∷ name ∷ i ∷ quote ∷ more ∷ gt ∷ old ∷ lt ∷ []) h f t r =
    let n = (eq_iff name "id=\"").0 h.1.0 in
    let e = (eq_iff i id).0 h.1.1.0 in
    let q = (eq_iff quote "\"").0 h.1.1.1.0 in
    let g = (eq_iff gt ">").0 h.1.1.1.1.1.0 in
    let l = (eq_iff lt "<").0 h.1.1.1.1.1.1.1.0 in
    let same : (v : String)
        → (space <> (name <> (i <> (quote <> (more <> (gt <> (v <> (lt <> after))))))))
          ≡ (space <> ("id=\"" <> (id <> ("\"" <> (more <> (">" <> (v <> ("<" <> after)))))))) =
      λ v. cc in
    (
      before,
      space,
      more,
      old,
      after,
      h.0,
      h.1.1.1.1.0,
      f,
      t ∙ ap (λ x. before <> x) (concat-eight space name i quote more gt old lt after ∙ same old),
      r
          ∙ ap (λ x. before <> x)
              (group-eight space name i quote more gt value lt after ∙ same value),
    )
SetsText-read html id value result before after behind (_ ∷ _ ∷ _ ∷ _ ∷ _ ∷ _ ∷ _ ∷ _ ∷ _ ∷ ts) h f
      t r =
    elim h.1.1.1.1.1.1.1.1 [ ]

-- Where a tag has the id, the text behind such a tag, up to the next tag, becomes the value, and
-- nothing else in the page changes.
pub set_html_text_by_id-SetsText :
    (html id value : String)
    → test (id_text_re id) html ≡ true
    → SetsText html id value (set_html_text_by_id html id value)
unfolding set_html_text_by_id
set_html_text_by_id-SetsText html id value h =
    let (m, e, r) = replace_first-exec (id_text_re id) (set_text value) html h in
    let o = exec-Occurs (id_text_re id) html m e in
    let lit_e = subst (λ ps. exec ps html ≡ some m) (id_text_re-lit id) e in
    SetsText-read html id value (set_html_text_by_id html id value) m.before m.after
      (last_code none m.before) m.texts
      (subst (λ ps. Reads ps (last_code none m.before) m.texts m.after) (id_text_re-lit id) o.read)
      (exec-texts (Nth (λ t. all_in not_lt t ≡ true) 6) (text_pieces id) (text-Has id) html m lit_e)
      o.placed r
