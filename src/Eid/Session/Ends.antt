-- ===== src/Eid/Session/Ends.antt =====
-- With complete bundles no load ends with an exception, through any changes of language.
use satosa_saml2spid.Base.{
  String, ◌≡◌, refl, Bool, true, false, Option, none, some, Ended, List, [], ◌∷◌, is_truthy,
  get_elem?, Bool-cases, Option-cases, inl, inr,
}
use satosa_saml2spid.Dom.Page.{is_there}
use satosa_saml2spid.Lang.Change.{Event, clicked, changed, resolved, on_resolved, step, run}
use satosa_saml2spid.Eid.Bundle.{Bundle, Store, find_bundle}
use satosa_saml2spid.Eid.Page.{Site, container, load_i18next}
use satosa_saml2spid.Eid.Page.Laws.{IsIdle}
use satosa_saml2spid.Eid.Page.Ends.{
  IsDone, finished, IsComplete, load_i18next-IsDone, load_none-IsDone,
}
use satosa_saml2spid.Eid.Session.{outcome, Page, reload, after, start_page}
use satosa_saml2spid.Eid.Session.Laws.{run-IsIdle}

-- Every language that has a bundle has a complete one.
abbrev pub AllComplete : Store → Type 0
AllComplete store =
    (language : String) (r : Bundle) → find_bundle store language ≡ some r → IsComplete r

module _ (to_lower : String → String) (search : String) (texts : String → String → String → String)
    (store : Store) (complete : AllComplete store) where
  load-IsDone :
      (language : String) (t : String → String) (s : Site)
      → IsDone (load_i18next to_lower search t (find_bundle store language) s)
  load-IsDone language t s = by_bundle (find_bundle store language) (complete language)
    where
      by_bundle :
          (o : Option Bundle)
          → ((r : Bundle) → o ≡ some r → IsComplete r)
          → IsDone (load_i18next to_lower search t o s)
      by_bundle none h = load_none-IsDone to_lower search t s
      by_bundle (some r) h = load_i18next-IsDone to_lower search t s r (h r refl)

  outcome-handled : {m : Ended Site} → IsDone m → (outcome m).unhandled ≡ false
  unfolding outcome
  outcome-handled (finished s) = refl

  step-handled :
      (e : Event) (w : Page)
      → w.site.unhandled ≡ false
      → (step texts (after to_lower search texts store) e w).site.unhandled ≡ false
  unfolding step reload
  step-handled (clicked none) w h = h
  step-handled (clicked (some lng)) w h = elim (Bool-cases (is_truthy lng)) [
    | inl y ↦ rw y h
    | inr n ↦ rw n h
  ]
  step-handled (changed lng) w h = h
  step-handled (resolved i) w h = elim (Option-cases (get_elem? w.pending i)) [
    | inl e ↦ rw (e, on_resolved) h
    | inr (lng, e) ↦
        rw (e, on_resolved)
          (outcome-handled (load-IsDone w.language (λ key. texts w.language key "") w.site.site))
  ]

  run-handled :
      (es : List Event) (w : Page)
      → w.site.unhandled ≡ false
      → (run texts (after to_lower search texts store) es w).site.unhandled ≡ false
  unfolding run
  run-handled [] w h = h
  run-handled (e ∷ es) w h =
      run-handled es (step texts (after to_lower search texts store) e w) (step-handled e w h)

  start-handled :
      (rejected menu : Bool) (w : Page)
      → (start_page to_lower search texts store rejected menu w).site.unhandled ≡ false
  unfolding start_page
  start-handled true menu w = refl
  start-handled false menu w = refl

  -- Where every bundle has its titles, and each entry of its two groups an address, no load ends with an
  -- exception that nothing catches, after any clicks, changes of language and resolutions in any order,
  -- and a container that the page has is not busy.
  pub run-ends :
      (rejected menu : Bool) (w : Page) (es : List Event)
      → is_there (w.site.site.page container) ≡ true
      → let v =
          run texts
            (after to_lower search texts store)
            es
            (start_page to_lower search texts store rejected menu w) in
        (v.site.unhandled ≡ false) × IsIdle v.site.site
  run-ends rejected menu w es h =
      let ended =
        run-handled es (start_page to_lower search texts store rejected menu w)
          (start-handled rejected menu w) in
      (ended, run-IsIdle to_lower search texts store rejected menu w es h ended)
