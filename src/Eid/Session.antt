-- ===== src/Eid/Session.antt =====
-- The page of digital identities from its start through the changes of language. The first load ends in
-- a `catch`; a later one runs in the callback of the language menu, where nothing catches.
pub mod Laws
pub mod Ends
mod Tests
use satosa_saml2spid.Base.{String, Bool, true, false, Option, Ended, done, threw, if◌then◌else◌}
use satosa_saml2spid.Lang.Change.{Switch, Callback, start}
use satosa_saml2spid.Eid.Bundle.{Store, find_bundle}
use satosa_saml2spid.Eid.Page.{
  Site, on_page, set_eid_cards_error, error_fallback, load_i18next, first_load,
}

-- The page, and whether its last load has ended with an exception that nothing caught.
pub record Loaded : Type 0 where
  pub site : Site
  pub unhandled : Bool

-- A load that ended, or whose exception was caught.
abbrev pub handled : Site → Loaded
handled s = record { site = s; unhandled = false }

-- The end of a load that nothing catches.
unfoldable pub outcome : Ended Site → Loaded
outcome (done s) = handled s
outcome (threw e s) = record { site = s; unhandled = true }

abbrev pub Page : Type 0
Page = Switch Loaded

module _ (to_lower : String → String) (search : String) (texts : String → String → String → String)
    (store : Store) where
  -- `loadEidCardsi18next` in the callback.
  unfoldable pub reload : String → Loaded → Loaded
  unfolding load_i18next outcome
  reload language s = outcome (
      load_i18next to_lower search (λ key. texts language key "") (find_bundle store language)
        s.site)

  abbrev pub after : Callback Loaded
  after = record { lang = λ language lang. lang; site = reload }

  -- What follows `init`: the menu, if its script is there, and the first load; or the message of the
  -- `catch`.
  unfoldable pub start_page : Bool → Bool → Page → Page
  unfolding start first_load set_eid_cards_error
  start_page rejected menu w =
      let t = λ (key : String). texts w.language key "" in
      if rejected
      then record w { site = handled (on_page (set_eid_cards_error error_fallback) w.site.site) }
      else record (if menu then start texts after w else w) {
        site = handled (first_load to_lower search t (find_bundle store w.language) w.site.site);
      }
