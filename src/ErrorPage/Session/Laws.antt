-- ===== src/ErrorPage/Session/Laws.antt =====
-- The error page is in the language in force after each change that is resolved.
use satosa_saml2spid.Base.{
  ℕ, String, ◌≡◌, refl, ◌==◌, if◌then◌else◌, true, false, some, List, get_elem?,
}
use satosa_saml2spid.Lang.Change.{Event, resolved, on_resolved, step, run, start}
use satosa_saml2spid.Lang.Change.Laws.{resolved-site}
use satosa_saml2spid.ErrorPage.{apply_to_items}
use satosa_saml2spid.ErrorPage.Laws.{apply_to_items_over}
use satosa_saml2spid.ErrorPage.Session.{Found, Page, translator, apply_translations, set_up}

-- The script found all that it looks for, and `init` succeeded.
abbrev pub IsComplete : Found → Type 0
IsComplete f = (f.i18next ≡ true) × (f.backend ≡ true) × (f.menu ≡ true) × (f.rejected ≡ false)

module _ (texts : String → String → String → String) where
  set_up-site :
      (f : Found) (w : Page)
      → IsComplete f
      → (lng : String) × ((set_up texts f w).0.site ≡ (apply_translations texts).site lng w.site)
  unfolding set_up start apply_translations
  set_up-site f w (a, b, c, d) = rw a (rw b (rw c (rw d (_, refl))))

  -- After the set-up, and any clicks, changes and resolutions, a promise that is resolved leaves every
  -- marked element of the error page as the passes in the language in force make it from the first
  -- page, and the document in Italian exactly where that language is Italian.
  pub resolved-translated :
      (f : Found) (w : Page) (es : List Event) (i : ℕ) (lng : String)
      → IsComplete f
      → let v = run texts (apply_translations texts) es (set_up texts f w).0 in
        get_elem? v.pending i ≡ some lng
        → let v = run texts (apply_translations texts) es (set_up texts f w).0 in
          let u = step texts (apply_translations texts) (resolved i) v in
          (u.site ≡ apply_to_items (translator texts v.language) w.site)
          × (u.header.document_lang ≡ (if v.language == "it" then "it" else "en"))
  unfolding apply_translations step
  resolved-translated f w es i lng h e = (
    resolved-site texts (apply_translations texts)
        (λ l m s. apply_to_items_over (translator texts l) (translator texts m) s) w.site es
        (set_up texts f w).0 i lng (set_up-site f w h) e,
    rw (e, on_resolved) refl,
  )
