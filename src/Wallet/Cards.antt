-- ===== src/Wallet/Cards.antt =====
-- `createWalletCard` and `renderWallets`. The parameters of the page's address, its origin, the URL
-- parser and `encodeURIComponent` are parameters.
pub mod Laws
pub mod LearnMore
use satosa_saml2spid.Base.{
  ◌>>=◌, String, ◌<>◌, Bool, true, false, Option, none, some, Result, ok, err, Ended, done,
  and_then, try_write, List, [], ◌∷◌, ◌++◌, if◌then◌else◌, eqb, length, includes, starts_with,
}
use satosa_saml2spid.Dom.Tree.{Node, el, text_nodes, children_if}
use satosa_saml2spid.Dom.Page.{El, set_attr}
use satosa_saml2spid.Eid.Bundle.{Bundle, read, or_else, text_of}
use satosa_saml2spid.Eid.Entries.{truthy_or}
use satosa_saml2spid.Eid.Slug.{wallet_card_slug}
use satosa_saml2spid.Wallet.Order.{Wallet}
use satosa_saml2spid.Wallet.Cards.LearnMore.{show_card_learn_more, learn_more_block}

-- The browser: `params.get`, `location.origin`, an address with two parameters set (`none` where
-- `new URL` throws), and `encodeURIComponent`.
pub record Browser : Type 0 where
  pub param : String → Option String
  pub origin : String
  pub with_params : String → String → String → Option String
  pub encode_uri_component : String → String
  pub to_lower : String → String

module _ (b : Browser) where
  unfoldable pub return_url : String
  return_url = truthy_or (b.param "return") (b.origin <> "/Saml2/disco")

  unfoldable pub entity_id : String → String
  entity_id uri =
      if includes uri "entityID=wallet" then "wallet" else truthy_or (b.param "entityID") "wallet"

  -- `buildWalletUri`, which throws where the entry has no address.
  unfoldable pub build_wallet_uri : Option String → Result String
  unfolding return_url entity_id
  build_wallet_uri none = err "TypeError"
  build_wallet_uri (some uri) = elim (b.with_params uri return_url (entity_id uri)) [
    | none ↦ ok (
        uri
        <> (if includes uri "?" then "&" else "?")
        <> "return="
        <> b.encode_uri_component return_url
        <> "&entityID="
        <> b.encode_uri_component (entity_id uri))
    | some address ↦ ok address
  ]

  unfoldable pub logo_address : String → Wallet → String
  logo_address base_path w =
      if starts_with (text_of w.logo_uri) "/"
      then text_of w.logo_uri
      else base_path <> text_of w.logo_uri

  -- The link that covers the card.
  unfoldable pub card_link : String → String → Wallet → String → Node
  unfolding logo_address
  card_link href title_id w base_path =
      el "a" (("href", href) ∷ ("class", "it-wallet-card-hit") ∷ []) (
        el "div" (("class", "d-flex align-items-center w-100 it-wallet-card-main-row") ∷ []) (
          el "div" (("class", "it-wallet-card-left") ∷ []) (
            el "img"
              (("src", logo_address base_path w)
                ∷ ("alt", "")
                ∷ ("aria-hidden", "true")
                ∷ ("class", "wallet-card-logo flex-shrink-0")
                ∷ [])
              []
            ∷ el "h2"
                (("id", title_id)
                  ∷ ("class", "it-card-title mb-0 it-wallet-card-title text-start h5")
                  ∷ [])
                (text_nodes (text_of w.name))
            ∷ [])
          ∷ el "span"
              (("class", "it-wallet-card-arrow flex-shrink-0") ∷ ("aria-hidden", "true") ∷ [])
              (el "svg" (("class", "icon") ∷ [])
                  (el "use" (("href", base_path <> "svg/sprites.svg#it-arrow-right") ∷ []) [] ∷ [])
                ∷ [])
          ∷ [])
        ∷ [])

  -- `createWalletCard`.
  unfoldable pub create_wallet_card : Bundle → String → Wallet → Result Node
  unfolding build_wallet_uri card_link
  create_wallet_card r base_path w = do
    href ← build_wallet_uri w.uri
    let title_id = "it-wallet-card-title-" <> wallet_card_slug b.to_lower w.id w.name
    ok (
        el "div" (("class", "col-12 col-lg-6 it-wallet-grid-col") ∷ []) (
          el "article"
            (("class", "it-card shadow it-wallet-card") ∷ ("aria-labelledby", title_id) ∷ [])
            (el "div" (("class", "it-card-body d-flex flex-column justify-content-center") ∷ []) (
                card_link href title_id w base_path
                ∷ children_if show_card_learn_more
                    (learn_more_block r base_path w.description w.how_to_get_url ∷ []))
              ∷ [])
          ∷ []))

  -- What the grid shows without a wallet.
  unfoldable pub no_results : Bundle → String → Node
  no_results r base_path =
      el "div"
        (("class", "col-12 d-flex flex-column align-items-center justify-content-center py-5") ∷ [])
        (el "img"
            (("src", base_path <> "img/error-icon.svg")
              ∷ ("alt", "")
              ∷ ("class", "it-wallet-no-results-icon mb-3")
              ∷ ("aria-hidden", "true")
              ∷ [])
            []
          ∷ el "p" (("class", "it-wallet-no-results-text mb-0") ∷ ("role", "status") ∷ [])
              (text_nodes (or_else (read r "search" "no_results") "Nessun risultato"))
          ∷ [])

  -- The cards appended one after the other: those before an exception stay.
  unfoldable pub append_wallets : Bundle → String → List Wallet → El → Ended El
  append_wallets r base_path [] grid = done grid
  append_wallets r base_path (w ∷ ws) grid =
      and_then
        (try_write (create_wallet_card r base_path w)
          (λ n e. record e { content = e.content ++ (n ∷ []) }) grid)
        (append_wallets r base_path ws)

  -- `renderWallets`, on the grid and its class for a single wallet.
  unfoldable pub render_wallets : Bundle → String → List Wallet → El → Ended El × Bool
  unfolding no_results append_wallets set_attr
  render_wallets r base_path wallets grid =
      let emptied = record (set_attr "aria-busy" "false" grid) { content = [] } in
      (
        (if eqb (length wallets) 0
            then done (record emptied { content = no_results r base_path ∷ [] })
            else append_wallets r base_path wallets emptied),
        eqb (length wallets) 1,
      )
