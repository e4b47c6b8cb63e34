-- ===== src/ErrorPage/Session/Tests.antt =====
-- A change of language on the error page.
use satosa_saml2spid.Base.{
  String, ◌<>◌, ◌≡◌, refl, true, false, none, some, List, [], ◌∷◌, ◌==◌, get_elem?, if◌then◌else◌,
}
use satosa_saml2spid.Lang.Menu.{Header}
use satosa_saml2spid.Lang.Change.{Event, clicked, changed, resolved, step, run, start}
use satosa_saml2spid.ErrorPage.{apply_to_items}
use satosa_saml2spid.ErrorPage.Tests.{footer_link}
use satosa_saml2spid.ErrorPage.Session.{Found, Page, translator, apply_translations, set_up}
use satosa_saml2spid.ErrorPage.Session.Laws.{resolved-translated}

abbrev texts : String → String → String → String
texts language key name = language <> key

abbrev header : Header
header = record { document_lang = "it"; roots = []; on_change = 0; bound_i18next = none }

abbrev found : Found
found = record {
  i18next = true;
  backend = true;
  menu = true;
  pathname = "/static/error_page.html";
  rejected = false;
}

abbrev page : Page
page = record {
  header = header;
  language = "";
  bootstrap = false;
  menu_shown = false;
  pending = [];
  site = footer_link;
}

abbrev one_click : List Event
one_click = clicked (some "en") ∷ changed "en" ∷ []

one_pending :
    get_elem? (run texts (apply_translations texts) one_click (set_up texts found page).0).pending 0
    ≡ some "en"
unfolding run set_up start step
one_pending = refl

resolved-translated_example :
    let v = run texts (apply_translations texts) one_click (set_up texts found page).0 in
    let u = step texts (apply_translations texts) (resolved 0) v in
    (u.site ≡ apply_to_items (translator texts v.language) footer_link)
    × (u.header.document_lang ≡ (if v.language == "it" then "it" else "en"))
resolved-translated_example =
    resolved-translated texts found page one_click 0 "en" (refl, refl, refl, refl) one_pending
