-- ===== src/Lang/Change.antt =====
-- The click handler of the language options, with the events of i18next that answer it. A call of
-- `changeLanguage` is a promise: it is pending from the click until i18next resolves it, and i18next
-- says in an event of its own when a language has taken effect. Nothing is assumed of their order.
pub mod Laws
mod Tests
use satosa_saml2spid.Base.{
  ℕ, String, Bool, true, false, Option, none, some, List, [], ◌∷◌, ◌++◌, eqb, if◌then◌else◌,
  is_truthy, get_elem?, without,
}
use satosa_saml2spid.Lang.Menu.{
  Header, set_document_language, sync_all_lang_dropdowns, init_header_lang_dropdown,
}

-- A click on an option, with its `data-lang`; the event `languageChanged`; and the resolution of the
-- pending promise at a place.
pub data Event : Type 0 where
  clicked : Option String → Event
  changed : String → Event
  resolved : ℕ → Event

-- The header, `i18next.language`, whether Bootstrap is there, whether the menu is shown, the languages
-- of the pending promises, and the rest of the page.
pub record Switch (S : Type 0) : Type 0 where
  pub header : Header
  pub language : String
  pub bootstrap : Bool
  pub menu_shown : Bool
  pub pending : List String
  pub site : S

-- What `afterLanguageChange` does, for `i18next.language`: to the language of the document, and to the
-- rest of the page.
pub record Callback (S : Type 0) : Type 0 where
  pub lang : String → String → String
  pub site : String → S → S

-- `texts` is `i18next.t` of each language.
module _ {S : Type 0} (texts : String → String → String → String) (after : Callback S) where
  -- The `click` listener of an option.
  unfoldable pub on_click : Option String → Switch S → Switch S
  on_click none w = w
  on_click (some lng) w =
      if is_truthy lng
      then record w {
        menu_shown = if w.bootstrap then false else w.menu_shown;
        pending = w.pending ++ (lng ∷ []);
      }
      else w

  -- A language takes effect: `t` speaks it, and the listener of `languageChanged` marks the menus.
  unfoldable pub on_changed : String → Switch S → Switch S
  unfolding sync_all_lang_dropdowns
  on_changed lng w =
      let spoken = record w.header { bound_i18next = some (texts lng) } in
      record w {
        language = lng;
        header =
            if eqb w.header.on_change 0 then spoken else sync_all_lang_dropdowns (some lng) spoken;
      }

  -- What follows the promise.
  unfoldable pub settled : String → Switch S → Switch S
  unfolding set_document_language
  settled lng w =
      let named = set_document_language (some lng) w.header in
      record w {
        header = record named { document_lang = after.lang w.language named.document_lang };
        site = after.site w.language w.site;
      }

  unfoldable pub on_resolved : ℕ → Switch S → Switch S
  unfolding without settled
  on_resolved i w = elim (get_elem? w.pending i) [
    | none ↦ w
    | some lng ↦ settled lng (record w { pending = without i w.pending })
  ]

  unfoldable pub step : Event → Switch S → Switch S
  unfolding on_click on_changed on_resolved
  step (clicked lng) w = on_click lng w
  step (changed lng) w = on_changed lng w
  step (resolved i) w = on_resolved i w

  unfoldable pub run : List Event → Switch S → Switch S
  run [] w = w
  run (e ∷ es) w = run es (step e w)

  -- The page once `initHeaderLangDropdown` has run.
  unfoldable pub start : Switch S → Switch S
  unfolding init_header_lang_dropdown
  start w = record w {
    header = init_header_lang_dropdown (texts w.language) (some w.language) w.header;
  }
