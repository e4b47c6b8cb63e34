-- ===== src/Wallet/Session.antt =====
-- The wallet page through the changes of language. Each of them calls `loadItWalletPage` again, which
-- waits for its fetch while the page goes on: several loads can be under way, and their fetches answer
-- in any order. A load keeps the texts of its beginning for the message of a failure, and reads those of
-- the language in force for the cards.
pub mod Laws
mod Tests
use satosa_saml2spid.Base.{
  ℕ, String, ℤ, Bool, true, false, Option, none, some, List, [], ◌∷◌, ◌++◌, get_elem?, without,
  text_or, Ended, done, state_of,
}
use satosa_saml2spid.Eid.Bundle.{Bundle, Store, missing, find_bundle}
use satosa_saml2spid.Wallet.Order.{Wallet}
use satosa_saml2spid.Wallet.Cards.{Browser}
use satosa_saml2spid.Wallet.Document.{load_document}
use satosa_saml2spid.Wallet.Grid.{wallet_loading_message, set_wallet_grid_loading}
use satosa_saml2spid.Wallet.Load.{
  Reply, Site, wallets_of, show_failure, show_wallets, caught, waiting_at,
}

-- The change of language is over, and the page is loaded again; a fetch answers, with the draws of the
-- shuffle that follows.
pub data Event : Type 0 where
  reloaded : (language : String) → Event
  answered : (load : ℕ) (reply : Reply) (draw : ℕ → ℕ) → Event

-- A load that waits for its fetch: its texts, and whether it is the first one, whose exceptions are
-- caught.
pub record Load : Type 0 where
  pub resource : Bundle
  pub is_first : Bool

pub record Visit : Type 0 where
  pub site : Site
  pub language : String
  pub waiting : List Load

-- The end of a load: an exception of the first one is caught.
unfoldable pub end_load : Bool → Ended Site → Site
unfolding caught
end_load true m = caught m
end_load false m = state_of m

-- `getWalletResource`: no texts at all where there is no bundle.
unfoldable pub get_wallet_resource : Store → String → Bundle
unfolding find_bundle
get_wallet_resource store language = elim (find_bundle store (text_or language "it")) [
  | some r ↦ r
  | none ↦ record { sections = []; digital_id = missing; alternative_id = missing }
]

module _ (b : Browser) (locale_compare : String → String → ℤ) (print : ℕ → String) (store : Store)
    (base_path query : String) where
  -- `loadItWalletPage` up to its fetch.
  unfoldable pub begin_load : Bool → Visit → Visit
  unfolding load_document set_wallet_grid_loading wallet_loading_message
  begin_load is_first v =
      let r = get_wallet_resource store v.language in
      record v {
        site = record v.site {
          page = set_wallet_grid_loading (wallet_loading_message r) (load_document r v.site.page);
        };
        waiting = v.waiting ++ (record { resource = r; is_first = is_first } ∷ []);
      }

  -- The rest of a load, once its fetch has answered.
  unfoldable pub rest_of_load : Load → Option (List Wallet) → (ℕ → ℕ) → String → Site → Ended Site
  unfolding show_failure show_wallets
  rest_of_load load none draw language site = done (show_failure load.resource query site)
  rest_of_load load (some ws) draw language site =
      show_wallets b locale_compare print draw (get_wallet_resource store language) base_path query
        ws site

  unfoldable pub on_answer : ℕ → Reply → (ℕ → ℕ) → Visit → Visit
  unfolding rest_of_load end_load without wallets_of
  on_answer i reply draw v = elim (get_elem? v.waiting i) [
    | none ↦ v
    | some load ↦ record v {
      site = end_load load.is_first (rest_of_load load (wallets_of reply) draw v.language v.site);
      waiting = without i v.waiting;
    }
  ]

  unfoldable pub step : Event → Visit → Visit
  unfolding begin_load on_answer
  step (reloaded language) v = begin_load false (record v { language = language })
  step (answered i reply draw) v = on_answer i reply draw v

  unfoldable pub run : List Event → Visit → Visit
  run [] v = v
  run (e ∷ es) v = run es (step e v)

  -- The start of the page: the message at once, and the first load.
  unfoldable pub open_page : Visit → Visit
  unfolding waiting_at begin_load
  open_page v = begin_load true (record v { site = waiting_at v.site })
