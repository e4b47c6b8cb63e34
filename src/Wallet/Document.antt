-- ===== src/Wallet/Document.antt =====
-- `loadDocument` of the wallet page, as the writes that it makes in order, and the link back.
use satosa_saml2spid.Base.{
  String, ◌<>◌, Bool, true, ◌&&◌, List, [], ◌∷◌, ◌==◌, ◌≡◌, refl, if◌then◌else◌, is_truthy,
}
use satosa_saml2spid.Dom.Page.{
  El, set_attr, remove_attr, set_text, Page, on_el, is_there, update, update_all,
}
use satosa_saml2spid.Dom.Page.Laws.{apart, write_at, update_all-apart}
use satosa_saml2spid.Eid.Bundle.{Bundle, read, or_else}
use satosa_saml2spid.Eid.Document.{set_footer_link}

abbrev Write : Type 0
Write = String × (El → El)

-- A drawing gets the role of an image and the title of the page as its label, if there is one.
unfoldable pub set_logo : Bool → El → El
unfolding set_attr
set_logo has_title e =
    if (e.tag == "svg") && has_title
    then set_attr "aria-labelledby" "eid-title" (set_attr "role" "img" e)
    else e

unfoldable pub set_search_input : String → El → El
unfolding set_attr remove_attr
set_search_input placeholder e = set_attr "placeholder" placeholder (remove_attr "aria-label" e)

unfoldable pub set_description : String → El → El
unfolding set_attr
set_description s e = if is_truthy s then set_attr "content" s e else e

module _ (r : Bundle) where
  abbrev local : String → String → String → String
  local section key fallback = or_else (read r section key) fallback

  abbrev sort_default : String
  sort_default = local "sort" "default" "Ordine predefinito"

  abbrev sort_az : String
  sort_az = local "sort" "az" "Alfabetico A-Z"

  abbrev sort_za : String
  sort_za = local "sort" "za" "Alfabetico Z-A"

  abbrev footer_write : String → String → Write
  footer_write selector key = (
    selector,
    set_footer_link (local "footer" "new_window_hint" "si apre in una nuova finestra")
        (local "footer" key ""),
  )

  -- The flag says whether the page has the element `eid-title`.
  unfoldable pub document_writes : Bool → List Write
  unfolding set_logo set_search_input set_description set_attr set_text
  document_writes has_title =
      ("#header-region-name", set_text (local "header" "region_name" ""))
      ∷ (
        ".it-skip-links",
        set_attr "aria-label" (local "skip_links" "nav_label" "Collegamenti di salto"),
      )
      ∷ ("#skip-main", set_text (local "skip_links" "main_content" "Vai al contenuto principale"))
      ∷ ("#skip-footer", set_text (local "skip_links" "footer" "Vai al piè di pagina"))
      ∷ ("#eid-title", set_text (local "titles" "logo_title" "Il tuo logo"))
      ∷ ("#header-logo-text", set_text (local "titles" "logo_title" "Il tuo logo"))
      ∷ ("#header-logo", set_logo has_title)
      ∷ ("#tab-title", set_text (local "titles" "page_title" ""))
      ∷ ("#page-title", set_text (local "titles" "page_title" ""))
      ∷ ("#page-subtitle", set_text (local "titles" "page_subtitle" ""))
      ∷ ("#wallet-search-label", set_text (local "search" "label" "Cerca wallet per nome"))
      ∷ ("#wallet-search", set_search_input (local "search" "placeholder" "Cerca per nome"))
      ∷ (
        "#wallet-search-toggle",
        set_attr "aria-label" (local "search" "toggle_open" "Apri ricerca e ordinamento wallet"),
      )
      ∷ ("#search-clear-btn", set_attr "aria-label" (local "search" "clear_label" "Reset ricerca"))
      ∷ ("#search-btn", set_text (local "search" "button" "Cerca"))
      ∷ (
        "#wallet-search-error",
        set_text (local "search" "empty_error" "Inserisci un termine di ricerca"),
      )
      ∷ (".it-wallet-navbar-logo", set_attr "alt" (local "titles" "wallet_brand_alt" "IT-Wallet"))
      ∷ ("#wallet-sort option:nth-child(1)", set_text sort_default)
      ∷ ("#wallet-sort option:nth-child(2)", set_text sort_az)
      ∷ ("#wallet-sort option:nth-child(3)", set_text sort_za)
      ∷ ("#wallet-sort-item-default", set_text sort_default)
      ∷ ("#wallet-sort-item-az", set_text sort_az)
      ∷ ("#wallet-sort-item-za", set_text sort_za)
      ∷ (
        "#wallet-sort-trigger",
        set_attr "aria-label" (local "sort" "trigger_label" "Ordina wallet"),
      )
      ∷ ("#back-link", set_attr "aria-label" (local "nav" "back" "Torna indietro"))
      ∷ (".it-wallet-back-label", set_text (local "nav" "back" "Torna indietro"))
      ∷ footer_write "#footer-legal" "legal_notice"
      ∷ footer_write "#footer-privacy" "privacy_policy"
      ∷ footer_write "#footer-accessibility" "accessibility_statement"
      ∷ ("#footer-legal-nav", set_attr "aria-label" (local "footer" "nav_label" ""))
      ∷ ("#noscript-message", set_text (local "noscript" "message" ""))
      ∷ ("meta[name=\"description\"]", set_description (local "meta" "description" ""))
      ∷ []

  unfoldable pub load_document : Page → Page
  unfolding document_writes
  load_document page = update_all (document_writes (is_there (page "#eid-title"))) page

  -- `document.title`.
  unfoldable pub load_title : String → String
  load_title title =
      let page_title = local "titles" "page_title" "" in
      if is_truthy page_title then page_title else title

-- `setupBackLink`; `query` is the text of the parameters of the page.
unfoldable pub setup_back_link : String → Page → Page
unfolding update set_attr
setup_back_link query =
    update "#back-link"
      (set_attr "href" (if is_truthy query then "disco.html?" <> query else "disco.html"))

document_writes-apart : (r : Bundle) (b : Bool) → apart (document_writes r b) ≡ true
unfolding document_writes apart
document_writes-apart r b = refl

-- Each element of the page is written by the write of its own selector and by no other, and an element
-- that is not among them is left alone.
pub load_document-write_at :
    (r : Bundle) (page : Page) (selector : String)
    → load_document r page selector
      ≡ on_el (write_at selector (document_writes r (is_there (page "#eid-title")))) (page selector)
unfolding load_document
load_document-write_at r page selector =
    update_all-apart selector _ page (document_writes-apart r (is_there (page "#eid-title")))
