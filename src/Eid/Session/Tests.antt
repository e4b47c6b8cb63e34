-- ===== src/Eid/Session/Tests.antt =====
-- The page of digital identities: a change of language to a bundle without titles.
use satosa_saml2spid.Base.{
  String, ◌≡◌, refl, true, false, none, some, List, [], ◌∷◌, ◌==◌, if◌then◌else◌, find_key,
  and_then, subst,
}
use satosa_saml2spid.Dom.Page.{update_all}
use satosa_saml2spid.Lang.Menu.{Header}
use satosa_saml2spid.Lang.Change.{Event, clicked, changed, resolved, step, run}
use satosa_saml2spid.Eid.Document.{load_document, document_writes}
use satosa_saml2spid.Eid.Bundle.{Bundle, Store, find_bundle, missing, entries, check_id}
use satosa_saml2spid.Eid.Page.{
  Site, container, heading, eid_loading_message, load_bundle, load_eid_cards, set_eid_cards_loading,
  update_page_heading, clear_cards,
}
use satosa_saml2spid.Eid.Page.Laws.{IsIdle, attr_of, ap_content}
use satosa_saml2spid.Eid.Tests.{same, site, bundle, empty_container, eid}
use satosa_saml2spid.Eid.Session.{Page, handled, reload, after, start_page}
use satosa_saml2spid.Eid.Page.Ends.{IsComplete}
use satosa_saml2spid.Eid.Session.Ends.{AllComplete, run-ends}
use satosa_saml2spid.Eid.Session.Laws.{status, run-IsIdle, reload-stuck}

abbrev texts : String → String → String → String
texts language key name = key

abbrev untitled : Bundle
untitled = record {
  sections = [];
  digital_id = entries (("spid", eid "SPID") ∷ []);
  alternative_id = missing;
}

abbrev store : Store
store = record {
  resource_bundle = λ lang. if lang == "it" then some bundle else none;
  data_by_language = λ lang. none;
  store_data = λ lang. some untitled;
}

abbrev header : Header
header = record { document_lang = "it"; roots = []; on_change = 0; bound_i18next = none }

abbrev page : Page
page = record {
  header = header;
  language = "it";
  bootstrap = true;
  menu_shown = false;
  pending = [];
  site = handled site;
}

abbrev one_change : List Event
one_change = clicked (some "it") ∷ changed "it" ∷ resolved 0 ∷ []

ended :
    (run texts
      (after same "" texts store)
      one_change
      (start_page same "" texts store false true page)).site.unhandled
    ≡ false
unfolding find_bundle run step start_page reload load_bundle load_eid_cards load_document update_all
    document_writes set_eid_cards_loading and_then update_page_heading check_id clear_cards
ended = refl

run-IsIdle_example :
    IsIdle
      (run texts
        (after same "" texts store)
        one_change
        (start_page same "" texts store false true page)).site.site
run-IsIdle_example = run-IsIdle same "" texts store false true page one_change refl ended

-- The page with its heading.
abbrev titled_site : Site
titled_site = record site { page = λ k. if k == heading then some empty_container else site.page k }

identities : check_id untitled.digital_id ≡ true
unfolding check_id
identities = refl

untitled_sections : find_key "titles" untitled.sections ≡ none
unfolding find_key
untitled_sections = refl

reload-stuck_example :
    let v = reload same "" texts store "en" (handled titled_site) in
    (v.unhandled ≡ true)
    × (attr_of "aria-busy" (v.site.page container) ≡ some "true")
    × (ap_content (v.site.page container) ≡ some (status (eid_loading_message untitled)))
unfolding find_bundle
reload-stuck_example =
    reload-stuck same "" texts store "en" (handled titled_site) untitled empty_container
      empty_container refl refl refl identities untitled_sections

-- A bundle with its titles, and a card with an address.
abbrev full : Bundle
full = record {
  sections = ("titles", []) ∷ [];
  digital_id = entries (("eidas", record (eid "eIDAS") { login_url = some "/eidas" }) ∷ []);
  alternative_id = missing;
}

full-IsComplete : IsComplete full
unfolding find_key
full-IsComplete = (tt, (tt, tt), tt)

abbrev always_full : Store
always_full = record {
  resource_bundle = λ lang. some full;
  data_by_language = λ lang. none;
  store_data = λ lang. none;
}

always_complete : AllComplete always_full
unfolding find_bundle
always_complete language r e =
    let same_bundle : full ≡ r = cc in subst IsComplete same_bundle full-IsComplete

run-ends_example :
    let v =
      run texts
        (after same "" texts always_full)
        one_change
        (start_page same "" texts always_full false true page) in
    (v.site.unhandled ≡ false) × IsIdle v.site.site
run-ends_example =
    run-ends same "" texts always_full always_complete false true page one_change refl
