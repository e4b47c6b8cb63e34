-- ===== src/Eid/Page.antt =====
-- `loadEidCards` and its callers, on the state of the page. The page has its own heading, as in
-- `disco.html`; what is created below the container is held as trees.
pub mod Laws
pub mod Ends
use satosa_saml2spid.Base.{
  ◌>>=◌, String, Bool, true, false, not, ◌&&◌, Option, none, some, ok, Ended, done, threw, and_then,
  try_write, [], ◌∷◌, ◌++◌, if◌then◌else◌, is_truthy, trim,
}
use satosa_saml2spid.Dom.Tree.{Node, el, text, text_nodes}
use satosa_saml2spid.Dom.Page.{El, set_attr, set_text, Page, is_there, update}
use satosa_saml2spid.Eid.Bundle.{Bundle, check_id, read, read_in, or_else, text_of, dom_string}
use satosa_saml2spid.Eid.LearnMore.{is_given, external_link_a11y, external_icon}
use satosa_saml2spid.Eid.Cards.{create_eid_cards_row}
use satosa_saml2spid.Eid.Document.{load_document, load_title}

-- `alternative` is what stands as `#eid-alternative-section`; `has_place` says that `#auth-methods` or
-- the `main` of the container is there to take it; `loaded_once` is `eidCardsLoadedOnce`.
pub record Site : Type 0 where
  pub page : Page
  pub title : String
  pub alternative : Option Node
  pub has_place : Bool
  pub loaded_once : Bool
  pub heading_focused : Bool

abbrev pub loading_fallback : String
loading_fallback = "Caricamento in corso..."

abbrev pub error_fallback : String
error_fallback = "Impossibile caricare i metodi di autenticazione. Ricarica la pagina."

-- `eidLoadingMessage` and `eidErrorMessage`.
unfoldable pub eid_loading_message : Bundle → String
eid_loading_message r = or_else (read r "loading" "in_progress") loading_fallback

unfoldable pub eid_error_message : Bundle → String
eid_error_message r = or_else (read r "loading" "error") error_fallback

abbrev pub container : String
container = "#eid-cards-container"

abbrev pub heading : String
heading = "#eid-selection-title"

-- A message in place of the cards.
unfoldable pub show_message : String → String → String → String → El → El
unfolding set_attr
show_message busy class role message e = record (set_attr "aria-busy" busy e) {
  content = el "p" (("class", class) ∷ ("role", role) ∷ []) (text_nodes message) ∷ [];
}

unfoldable pub set_eid_cards_loading : String → Page → Page
unfolding update show_message
set_eid_cards_loading message =
    update container (show_message "true" "eid-list-state eid-list-state--loading" "status" message)

unfoldable pub set_eid_cards_error : String → Page → Page
unfolding update show_message
set_eid_cards_error message =
    update container (show_message "false" "eid-list-state eid-list-state--error" "alert" message)

abbrev pub on_page : (Page → Page) → Site → Site
on_page f s = record s { page = f s.page }

abbrev set_heading : String → Option String → Site → Site
set_heading class label =
    on_page (update heading (λ e. set_attr "class" class (set_text (text_of label) e)))

-- `updatePageHeading`.
unfoldable pub update_page_heading : Bundle → Site → Ended Site
unfolding update set_attr set_text
update_page_heading r s =
    if not (is_there (s.page heading))
    then done s
    else if check_id r.digital_id
    then try_write (read_in r "titles" "login_digital_identity") (set_heading "h2 text-center mb-4")
        s
    else if check_id r.alternative_id
    then try_write (read_in r "titles" "login_alternative_method")
        (set_heading "h2 text-center mb-3 pb-4") s
    else done s

-- Nodes appended to the container.
unfoldable pub append_cards : Node → Site → Site
unfolding update
append_cards n = on_page (update container (λ e. record e { content = e.content ++ (n ∷ []) }))

-- The container empty and not busy, and no section of alternative methods.
unfoldable pub clear_cards : Site → Site
unfolding update set_attr
clear_cards s =
    record (on_page
      (update container (λ e. record (set_attr "aria-busy" "false" e) { content = [] })) s) {
        alternative = none;
      }

-- The link below the cards; with no address it goes nowhere.
unfoldable pub info_section : Bundle → String → Option String → Option String → Node
unfolding external_link_a11y external_icon
info_section r question find_text find_url =
    let url = trim (text_of find_url) in
    el "section"
      (("class", "d-flex flex-column align-items-center mb-4")
        ∷ ("aria-labelledby", "eid-havent-digital-id-title")
        ∷ [])
      (el "h2"
          (("id", "eid-havent-digital-id-title") ∷ ("class", "eid-havent-digital-id-heading") ∷ [])
          (text_nodes question)
        ∷ el "a"
            (("class", "eid-find-how-link")
              ∷ (if is_truthy url
                  then (("href", url)
                      ∷ ("target", "_blank")
                      ∷ ("rel", "noopener noreferrer")
                      ∷ external_link_a11y find_text r)
                  else ("href", "#") ∷ []))
            (text (dom_string find_text) ∷ external_icon ∷ [])
        ∷ [])

module _ (to_lower : String → String) (search : String) (r : Bundle) where
  -- The cards of the digital identities, and the link below them.
  unfoldable pub load_digital : Site → Ended Site
  unfolding append_cards
  load_digital s =
      and_then
        (try_write (create_eid_cards_row to_lower search r "digital_id" 2)
          (λ row. append_cards (el "section" (("class", "mb-4") ∷ []) (row ∷ []))) s)
        λ s1.
          try_write
            (do
              question ← read_in r "titles" "havent_digital_identy"
              find_text ← read_in r "titles" "find_how_to_get_digital_id"
              find_url ← read_in r "titles" "find_how_to_get_digital_id_url"
              ok (
                  if is_given question
                  then some (info_section r (text_of question) find_text find_url)
                  else none))
            (λ info s2. elim info [ none ↦ s2 | some n ↦ append_cards n s2 ]) s1

  -- The section of the alternative methods. Its heading is a second-level one below digital
  -- identities, and else a first-level one with the identifier of the heading of the page.
  unfoldable pub alternative_section : Bool → Option String → Node → Node
  alternative_section has_digital label row =
      let title_id = if has_digital then "eid-alternative-title" else "eid-selection-title" in
      el "section"
        (("id", "eid-alternative-section")
          ∷ ("class", "py-4 eid-alternative-section")
          ∷ ("role", "region")
          ∷ ("aria-labelledby", title_id)
          ∷ [])
        (el "div" (("class", "container mb-0") ∷ []) (
            el (if has_digital then "h2" else "h1")
              (("id", title_id) ∷ ("class", "h2 text-center mb-3 pb-4") ∷ [])
              (text_nodes (text_of label))
            ∷ row
            ∷ [])
          ∷ [])

  unfoldable pub load_alternative : Site → Ended Site
  unfolding alternative_section
  load_alternative s =
      let has_digital = check_id r.digital_id in
      try_write
        (do
          label ← read_in r "titles" "login_alternative_method"
          row ←
              create_eid_cards_row to_lower search r "alternative_id" (if has_digital then 3 else 2)
          ok (alternative_section has_digital label row))
        (λ section s1. if s1.has_place then record s1 { alternative = some section } else s1) s

  -- `focusPageHeadingAfterUpdate` on later loads; its `blur` listener takes `tabindex` off again.
  unfoldable pub finish_load : Site → Site
  unfolding update set_attr
  finish_load s =
      let focused = record (on_page (update heading (set_attr "tabindex" "-1")) s) {
        heading_focused = true;
      } in
      record (if s.loaded_once && is_there (s.page heading) then focused else s) {
        loaded_once = true;
      }

  -- `loadEidCards`.
  unfoldable pub load_eid_cards : Site → Ended Site
  load_eid_cards s =
      if not (is_there (s.page container))
      then done s
      else and_then (update_page_heading r s) λ s1.
        let s2 = clear_cards s1 in
        if not (check_id r.digital_id) && not (check_id r.alternative_id)
        then done (on_page (set_eid_cards_error (eid_error_message r)) s2)
        else and_then (if check_id r.digital_id then load_digital s2 else done s2) λ s3.
          and_then (if check_id r.alternative_id then load_alternative s3 else done s3)
            λ s4. done (finish_load s4)

  -- `loadEidCardsi18next` with a bundle.
  unfoldable pub load_bundle : (String → String) → Site → Ended Site
  load_bundle t s = load_eid_cards (record s {
    page = load_document t r (set_eid_cards_loading (eid_loading_message r) s.page);
    title = load_title t r s.title;
  })

module _ (to_lower : String → String) (search : String) (t : String → String) where
  -- `loadEidCardsi18next`: without a bundle the page says that it cannot load.
  unfoldable pub load_i18next : Option Bundle → Site → Ended Site
  load_i18next none s = done (on_page (set_eid_cards_error error_fallback) s)
  load_i18next (some r) s = load_bundle to_lower search r t s

  -- The first load: an exception ends in the error message.
  unfoldable pub first_load : Option Bundle → Site → Site
  first_load bundle s = elim (load_i18next bundle s) [
    | done s1 ↦ s1
    | threw e s1 ↦ on_page (set_eid_cards_error error_fallback) s1
  ]
