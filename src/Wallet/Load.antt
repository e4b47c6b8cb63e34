-- ===== src/Wallet/Load.antt =====
-- `loadItWalletPage` as a whole, and the start of the page: the fetch of the list, the message where it
-- fails, and the first rendering. The listeners that a load adds are those of `Controls`.
pub mod Laws
use satosa_saml2spid.Base.{
  ℕ, String, ℤ, Bool, true, false, not, Option, none, some, List, [], text_or, Ended, done, threw,
  and_then,
}
use satosa_saml2spid.Dom.Page.{El, Page, update}
use satosa_saml2spid.Eid.Bundle.{Bundle}
use satosa_saml2spid.Wallet.Order.{Wallet, shuffle_wallets}
use satosa_saml2spid.Wallet.Cards.{Browser, render_wallets}
use satosa_saml2spid.Wallet.Controls.{
  Controls, show_controls, sorted_wallets, sync_search_button_state, set_sort_menu_selection,
  sort_in, apply_filters_and_sort,
}
use satosa_saml2spid.Wallet.Document.{load_document, setup_back_link}
use satosa_saml2spid.Wallet.Grid.{
  wallet_loading_message, wallet_error_message, set_wallet_grid_loading, set_wallet_grid_error,
}

-- What `fetch` and `resp.json()` come to: a rejected promise (or data that has no fields), a response
-- whose `ok` is false, or the list of the entities, if the data has one.
pub data Reply : Type 0 where
  rejected : Reply
  not_ok : (status : ℕ) → Reply
  data_of : (entities : Option (List Wallet)) → Reply

-- The elements of the page, the class of the grid for a single wallet, what hides the controls and the
-- actions beside the title, and the controls.
pub record Site : Type 0 where
  pub page : Page
  pub single : Bool
  pub controls_hidden : Bool
  pub actions_hidden : Bool
  pub controls : Controls

-- `wallets`, or `none` where `loadFailed` is set.
unfoldable pub wallets_of : Reply → Option (List Wallet)
wallets_of rejected = none
wallets_of (not_ok status) = none
wallets_of (data_of none) = some []
wallets_of (data_of (some wallets)) = some wallets

-- The grid with the end of a rendering.
unfoldable pub with_grid : Site → Bool → Ended El → Ended Site
with_grid site single (done g) =
    done (record site { page = update "#wallet-grid" (λ e. g) site.page; single = single })
with_grid site single (threw message g) =
    threw message (record site { page = update "#wallet-grid" (λ e. g) site.page; single = single })

-- `renderWallets`, which does nothing without a grid.
unfoldable pub render : Browser → Bundle → String → List Wallet → Site → Ended Site
unfolding render_wallets with_grid update
render b r base_path wallets site = elim (site.page "#wallet-grid") [
  | none ↦ done site
  | some grid ↦ let m = render_wallets b r base_path wallets grid in with_grid site m.1 m.0
]

-- The rest of a load whose fetch has failed.
unfoldable pub show_failure : Bundle → String → Site → Site
unfolding set_wallet_grid_error setup_back_link wallet_error_message
show_failure r query site = record site {
  page = setup_back_link query (set_wallet_grid_error (wallet_error_message r) site.page);
  controls_hidden = true;
  actions_hidden = true;
}

-- `.catch(…)`.
unfoldable pub caught : Ended Site → Site
unfolding set_wallet_grid_error
caught (done site) = site
caught (threw message site) = record site {
  page =
      set_wallet_grid_error "Impossibile caricare l'elenco wallet. Ricarica la pagina." site.page;
}

-- `setWalletGridLoading(WALLET_LOADING_FALLBACK)`, before anything is loaded.
unfoldable pub waiting_at : Site → Site
unfolding set_wallet_grid_loading
waiting_at site = record site { page = set_wallet_grid_loading "Caricamento in corso..." site.page }

module _ (b : Browser) (locale_compare : String → String → ℤ) (print : ℕ → String) (draw : ℕ → ℕ)
    (r : Bundle) (base_path query : String) where
  -- The page before the first rendering of a list in this order.
  unfoldable pub ready_for : List Wallet → Site → Site
  unfolding show_controls sync_search_button_state
  ready_for order site =
      let shown = show_controls b.to_lower locale_compare print r order in
      record site {
        controls_hidden = not shown;
        actions_hidden = not shown;
        controls = sync_search_button_state (
            set_sort_menu_selection (sort_in site.controls)
              (record site.controls { applied_query = "" }));
      }

  -- The controls as the first rendering leaves them.
  unfoldable pub show_order : List Wallet → Site → Ended Site
  unfolding sorted_wallets apply_filters_and_sort render ready_for setup_back_link and_then
  show_order order site =
      let ready = ready_for order site in
      let sorted = sorted_wallets b.to_lower locale_compare print r order ready.controls in
      let applied = record ready {
        controls =
            apply_filters_and_sort b.to_lower locale_compare print r order none ready.controls;
      } in
      and_then (render b r base_path sorted applied)
        (λ s. done (record s { page = setup_back_link query s.page }))

  -- The rest of a load that has the list. A shuffle that put `undefined` into it would make the rendering
  -- throw.
  unfoldable pub show_wallets : List Wallet → Site → Ended Site
  unfolding shuffle_wallets show_order
  show_wallets wallets site = elim (shuffle_wallets draw wallets) [
    | none ↦ threw "TypeError" site
    | some order ↦ show_order order site
  ]

  unfoldable pub fetched : Option (List Wallet) → Site → Ended Site
  unfolding show_failure show_wallets
  fetched none site = done (show_failure r query site)
  fetched (some wallets) site = show_wallets wallets site

  -- `loadItWalletPage`.
  unfoldable pub load_it_wallet_page : Reply → Site → Ended Site
  unfolding load_document set_wallet_grid_loading wallet_loading_message wallets_of fetched
  load_it_wallet_page reply site = fetched (wallets_of reply) (record site {
    page = set_wallet_grid_loading (wallet_loading_message r) (load_document r site.page);
  })

  -- The start of the page: the message at once, and the load, once i18next is ready; `ready` is false
  -- where its promise is rejected.
  unfoldable pub start_page : Bool → Reply → Site → Site
  unfolding waiting_at load_it_wallet_page caught
  start_page ready reply site = elim ready [
    | true ↦ caught (load_it_wallet_page reply (waiting_at site))
    | false ↦ caught (threw "i18next" (waiting_at site))
  ]
