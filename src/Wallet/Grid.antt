-- ===== src/Wallet/Grid.antt =====
-- The messages of the wallet grid.
use satosa_saml2spid.Base.{String, ◌<>◌, [], ◌∷◌}
use satosa_saml2spid.Dom.Tree.{el, text_nodes}
use satosa_saml2spid.Dom.Page.{El, set_attr, Page, update}
use satosa_saml2spid.Eid.Bundle.{Bundle, read, or_else}

unfoldable pub wallet_loading_message : Bundle → String
wallet_loading_message r = or_else (read r "loading" "in_progress") "Caricamento in corso..."

unfoldable pub wallet_error_message : Bundle → String
wallet_error_message r =
    or_else (read r "loading" "error") "Impossibile caricare l'elenco wallet. Ricarica la pagina."

-- A message in place of the cards.
unfoldable pub show_state : String → String → String → String → El → El
unfolding set_attr
show_state busy class role message e = record (set_attr "aria-busy" busy e) {
  content =
      el "p" (("class", class <> " col-12 text-center") ∷ ("role", role) ∷ []) (text_nodes message)
      ∷ [];
}

unfoldable pub set_wallet_grid_loading : String → Page → Page
unfolding update show_state
set_wallet_grid_loading message =
    update "#wallet-grid"
      (show_state "true" "it-wallet-list-state it-wallet-list-state--loading" "status" message)

unfoldable pub set_wallet_grid_error : String → Page → Page
unfolding update show_state
set_wallet_grid_error message =
    update "#wallet-grid"
      (show_state "false" "it-wallet-list-state it-wallet-list-state--error" "alert" message)
