-- ===== src/Eid/Session/Laws.antt =====
-- The container is not left busy by a load that ends, and stays busy after one that does not.
use satosa_saml2spid.Base.{
  String, ◌≡◌, refl, ap, ◌∙◌, and_then, try_write, Bool, true, false, Option, none, some, Ended,
  threw, Ends, at_done, at_threw, List, [], ◌∷◌, is_truthy, get_elem?, find_key, Bool-cases,
  Option-cases, inl, inr,
}
use satosa_saml2spid.Dom.Page.{Page as Elements}
use satosa_saml2spid.Dom.Page.{El, is_there, update}
use satosa_saml2spid.Dom.Page.Laws.{
  update_all_other, is_there-update, is_there-update_all, find_key-set_entry_self,
}
use satosa_saml2spid.Eid.Document.{load_document, load_title, document_writes}
use satosa_saml2spid.Lang.Change.{Event, clicked, changed, resolved, on_resolved, step, run}
use satosa_saml2spid.Eid.Bundle.{Bundle, Store, find_bundle, check_id, read_in}
use satosa_saml2spid.Eid.Page.{
  Site, container, heading, error_fallback, load_i18next, eid_loading_message,
  set_eid_cards_loading, show_message, load_bundle, load_eid_cards, update_page_heading,
}
use satosa_saml2spid.Eid.Page.Laws.{
  attr_of, ap_content, IsIdle, HasContainer, IsIdle-HasContainer, error-IsIdle, load_bundle-IsIdle,
  first_load-IsIdle,
}
use satosa_saml2spid.Dom.Tree.{Node, el, text_nodes}
use satosa_saml2spid.Eid.Session.{Loaded, outcome, Page, reload, after, start_page}

-- The container is there, and it is not busy, unless the last load ended with an exception that
-- nothing caught.
pub data IsSettled : Loaded → Type 0 where
  idle : (s : Site) → IsIdle s → IsSettled (record { site = s; unhandled = false })
  stopped : (s : Site) → HasContainer s → IsSettled (record { site = s; unhandled = true })

IsSettled-HasContainer : {l : Loaded} → IsSettled l → HasContainer l.site
IsSettled-HasContainer (idle s h) = IsIdle-HasContainer s h
IsSettled-HasContainer (stopped s h) = h

IsSettled-IsIdle : {l : Loaded} → IsSettled l → l.unhandled ≡ false → IsIdle l.site
IsSettled-IsIdle (idle s h) e = h
IsSettled-IsIdle (stopped s h) e = cc

module _ (to_lower : String → String) (search : String) (texts : String → String → String → String)
    (store : Store) where
  outcome-IsSettled : {m : Ended Site} → Ends IsIdle HasContainer m → IsSettled (outcome m)
  unfolding outcome
  outcome-IsSettled (at_done s h) = idle s h
  outcome-IsSettled (at_threw e s h) = stopped s h

  load-Ends :
      (t : String → String) (b : Option Bundle) (s : Site)
      → HasContainer s
      → Ends IsIdle HasContainer (load_i18next to_lower search t b s)
  unfolding load_i18next
  load-Ends t none s h = at_done _ (error-IsIdle error_fallback s h)
  load-Ends t (some r) s h = load_bundle-IsIdle to_lower search t r s h

  reload-IsSettled :
      (language : String) (l : Loaded)
      → IsSettled l
      → IsSettled (reload to_lower search texts store language l)
  unfolding reload
  reload-IsSettled language l h = outcome-IsSettled (
      load-Ends (λ key. texts language key "") (find_bundle store language) l.site
        (IsSettled-HasContainer h))

  step-IsSettled :
      (e : Event) (w : Page)
      → IsSettled w.site
      → IsSettled (step texts (after to_lower search texts store) e w).site
  unfolding step
  step-IsSettled (clicked none) w h = h
  step-IsSettled (clicked (some lng)) w h = elim (Bool-cases (is_truthy lng)) [
    | inl y ↦ rw y h
    | inr n ↦ rw n h
  ]
  step-IsSettled (changed lng) w h = h
  step-IsSettled (resolved i) w h = elim (Option-cases (get_elem? w.pending i)) [
    | inl e ↦ rw (e, on_resolved) h
    | inr (lng, e) ↦ rw (e, on_resolved) (reload-IsSettled w.language w.site h)
  ]

  run-IsSettled :
      (es : List Event) (w : Page)
      → IsSettled w.site
      → IsSettled (run texts (after to_lower search texts store) es w).site
  unfolding run
  run-IsSettled [] w h = h
  run-IsSettled (e ∷ es) w h =
      run-IsSettled es (step texts (after to_lower search texts store) e w) (step-IsSettled e w h)

  start-IsSettled :
      (rejected menu : Bool) (w : Page)
      → HasContainer w.site.site
      → IsSettled (start_page to_lower search texts store rejected menu w).site
  unfolding start_page
  start-IsSettled true menu w h = idle _ (error-IsIdle error_fallback w.site.site h)
  start-IsSettled false menu w h = idle _ (
      first_load-IsIdle to_lower search (λ key. texts w.language key "")
        (find_bundle store w.language) w.site.site h)

  -- From its start on, and after any clicks, changes of language and resolutions in any order, a
  -- container that the page has is there, and is not busy where the last load has ended without an
  -- exception.
  pub run-IsIdle :
      (rejected menu : Bool) (w : Page) (es : List Event)
      → is_there (w.site.site.page container) ≡ true
      → let v =
          run texts
            (after to_lower search texts store)
            es
            (start_page to_lower search texts store rejected menu w) in
        v.site.unhandled ≡ false
        → let v =
            run texts
              (after to_lower search texts store)
              es
              (start_page to_lower search texts store rejected menu w) in
          IsIdle v.site.site
  run-IsIdle rejected menu w es h e =
      IsSettled-IsIdle (run-IsSettled es _ (start-IsSettled rejected menu w h)) e

-- The loading message, as the content of the container.
abbrev pub status : String → List Node
status message =
    el "p" (("class", "eid-list-state eid-list-state--loading") ∷ ("role", "status") ∷ [])
      (text_nodes message)
    ∷ []

module _ (to_lower : String → String) (search : String) (t : String → String) (r : Bundle)
    (digital : check_id r.digital_id ≡ true)
    (none_there : find_key "titles" r.sections ≡ none) where
  -- The heading wants a title, and the load stops there.
  load_eid_cards-stops :
      (s : Site)
      → is_there (s.page container) ≡ true
      → is_there (s.page heading) ≡ true
      → load_eid_cards to_lower search r s ≡ threw "TypeError" s
  unfolding load_eid_cards update_page_heading read_in and_then try_write
  load_eid_cards-stops s c h = rw c (rw h (rw digital (rw (none_there, read_in) refl)))

  document-container : (page : Elements) → load_document t r page container ≡ page container
  unfolding load_document document_writes
  document-container page = update_all_other container _ page refl

  -- The page with the loading message and the texts of the bundle.
  abbrev begun : Site → Site
  begun s = record s {
    page = load_document t r (set_eid_cards_loading (eid_loading_message r) s.page);
    title = load_title t r s.title;
  }

  loading-busy :
      (s : Site) (e : El)
      → s.page container ≡ some e
      → (attr_of "aria-busy" ((begun s).page container) ≡ some "true")
        × (ap_content ((begun s).page container) ≡ some (status (eid_loading_message r)))
  unfolding set_eid_cards_loading show_message
  loading-busy s e c =
      rw (document-container (set_eid_cards_loading (eid_loading_message r) s.page))
        (rw c (find_key-set_entry_self "aria-busy" "true" e.attrs, refl))

  load_bundle-stops :
      (s : Site)
      → is_there (s.page container) ≡ true
      → is_there (s.page heading) ≡ true
      → load_bundle to_lower search r t s ≡ threw "TypeError" (begun s)
  unfolding load_bundle load_document set_eid_cards_loading update
  load_bundle-stops s c h =
      load_eid_cards-stops (begun s)
        (is_there-update_all container _ (set_eid_cards_loading (eid_loading_message r) s.page)
          ∙ is_there-update container container _ s.page
          ∙ c)
        (is_there-update_all heading _ (set_eid_cards_loading (eid_loading_message r) s.page) ∙ h)

-- A bundle with digital identities and without the section of the titles ends a later load before it
-- empties the container: nothing catches the exception, and the page goes on saying that it is loading.
pub reload-stuck :
    (to_lower : String → String) (search : String) (texts : String → String → String → String)
    (store : Store) (language : String) (l : Loaded) (r : Bundle) (e h : El)
    → find_bundle store language ≡ some r
    → l.site.page container ≡ some e
    → l.site.page heading ≡ some h
    → check_id r.digital_id ≡ true
    → find_key "titles" r.sections ≡ none
    → let v = reload to_lower search texts store language l in
      (v.unhandled ≡ true)
      × (attr_of "aria-busy" (v.site.page container) ≡ some "true")
      × (ap_content (v.site.page container) ≡ some (status (eid_loading_message r)))
unfolding reload load_i18next
reload-stuck to_lower search texts store language l r e h b c d i n =
    let (busy, shown) =
      loading-busy to_lower search (λ key. texts language key "") r i n l.site e c in
    rw (b, reload)
      (rw
        (load_bundle-stops to_lower search (λ key. texts language key "") r i n l.site
          (ap is_there c) (ap is_there d))
        (refl, busy, shown))
