-- ===== src/ErrorPage/Session.antt =====
-- The set-up of the error page and its changes of language. `i18next` and its HTTP backend may be
-- missing, and the promise of `init` may be rejected.
pub mod Laws
mod Tests
use satosa_saml2spid.Base.{
  String, ◌<>◌, Bool, true, false, not, ◌||◌, ◌&&◌, List, [], ◌∷◌, if◌then◌else◌, text_or,
}
use satosa_saml2spid.Dom.Address.{get_base_path}
use satosa_saml2spid.Lang.Change.{Event, Switch, Callback, start, run}
use satosa_saml2spid.ErrorPage.{Item, apply_to_items, html_lang}

-- What the script finds: `typeof` of the two libraries and of `initHeaderLangDropdown`, the path of
-- the page, and whether `init` is rejected.
pub record Found : Type 0 where
  pub i18next : Bool
  pub backend : Bool
  pub menu : Bool
  pub pathname : String
  pub rejected : Bool

-- The options of `init`.
pub record Options : Type 0 where
  pub lng : String
  pub fallback_lng : String
  pub load_path : String

unfoldable pub init_options : Found → String → Options
unfolding get_base_path
init_options found lang = record {
  lng = text_or lang "it";
  fallback_lng = "it";
  load_path = get_base_path found.pathname <> "locales/error-{{lng}}.json";
}

-- What is written to the console.
pub data Message : Type 0 where
  skipped failed : Message

abbrev pub Page : Type 0
Page = Switch (List Item)

module _ (texts : String → String → String → String) where
  -- `i18next.t` of a language.
  abbrev pub translator : String → String → String
  translator lng key = texts lng key ""

  -- `applyErrorTranslations`, which is also the callback of the language menu.
  unfoldable pub apply_translations : Callback (List Item)
  unfolding html_lang
  apply_translations = record {
    lang = λ language lang. html_lang language;
    site = λ language items. apply_to_items (translator language) items;
  }

  -- `initErrorI18n`.
  unfoldable pub init_error_i18n : Bool → Page → Page
  unfolding apply_translations
  init_error_i18n menu w =
      let applied = record w {
        header = record w.header { document_lang = html_lang w.language };
        site = apply_to_items (translator w.language) w.site;
      } in
      if menu then start texts apply_translations applied else applied

  -- The script: the page, and what it writes to the console.
  unfoldable pub set_up : Found → Page → Page × List Message
  unfolding init_options init_error_i18n
  set_up found w =
      if not (found.i18next && found.backend)
      then (w, skipped ∷ [])
      else if found.rejected
      then (w, failed ∷ [])
      else (
        init_error_i18n found.menu
            (record w { language = (init_options found w.header.document_lang).lng }),
        [],
      )
