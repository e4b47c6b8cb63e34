-- ===== src/Eid/Document.antt =====
-- `loadDocument`: the texts of the page outside the cards, as the writes that it makes in order.
-- `i18next.t` is a parameter.
pub mod Laws
use satosa_saml2spid.Base.{
  String, ◌<>◌, Bool, not, ◌&&◌, Option, none, some, List, [], ◌∷◌, ◌==◌, if◌then◌else◌, is_truthy,
  find_key,
}
use satosa_saml2spid.Dom.Tree.{nodes, text_of_nodes}
use satosa_saml2spid.Dom.Page.{El, set_attr, set_text, Page, is_there, update_all}
use satosa_saml2spid.Eid.Bundle.{Bundle, read, or_else}
use satosa_saml2spid.Eid.LearnMore.{new_window_hint_text}

-- `a ?? b`.
abbrev pub first_of_two : Option String → Option String → Option String
first_of_two none b = b
first_of_two (some a) b = some a

abbrev Write : Type 0
Write = String × (El → El)

-- `setFooterLink`.
unfoldable pub set_footer_link : String → String → El → El
unfolding set_attr set_text
set_footer_link hint label e =
    set_attr "aria-label" (label <> " (" <> hint <> ")") (set_text label e)

-- The logo is an image, a drawing with a title, or left alone.
unfoldable pub set_logo : Bool → String → El → El
unfolding set_attr
set_logo has_title logo_text e =
    if e.tag == "img"
    then set_attr "alt" logo_text e
    else if (e.tag == "svg") && has_title
    then set_attr "aria-labelledby" "eid-title" (set_attr "role" "img" e)
    else e

-- A text that is written if it differs.
unfoldable pub set_text_if_new : String → El → El
unfolding set_text
set_text_if_new s e = if text_of_nodes (nodes e.content) == s then e else set_text s e

-- `content` of the description, if there is a text for it and it differs.
unfoldable pub set_description : String → El → El
unfolding set_attr
set_description s e = elim (find_key "content" e.attrs) [
  | none ↦ if is_truthy s then set_attr "content" s e else e
  | some old ↦ if is_truthy s && not (old == s) then set_attr "content" s e else e
]

module _ (t : String → String) (r : Bundle) where
  abbrev local : String → String → String → String
  local section key fallback = or_else (read r section key) fallback

  abbrev logo_text : String
  logo_text =
      or_else (first_of_two (read r "titles" "login_logo") (read r "header" "region_name")) ""

  abbrev footer_write : String → String → Write
  footer_write selector key =
      (selector, set_footer_link (new_window_hint_text r) (local "footer" key ""))

  -- The flag says whether the page has the element `eid-title`.
  unfoldable pub document_writes : Bool → List Write
  document_writes has_title =
      ("#header-region-name", set_text (local "header" "region_name" (t "header.region_name")))
      ∷ (
        ".it-skip-links",
        set_attr "aria-label" (local "skip_links" "nav_label" "Collegamenti di salto"),
      )
      ∷ ("#skip-main", set_text (local "skip_links" "main_content" "Vai al contenuto principale"))
      ∷ ("#skip-footer", set_text (local "skip_links" "footer" "Vai al piè di pagina"))
      ∷ ("#eid-title", set_text logo_text)
      ∷ ("#header-logo-text", set_text logo_text)
      ∷ ("#header-logo", set_logo has_title logo_text)
      ∷ footer_write "#footer-legal" "legal_notice"
      ∷ footer_write "#footer-privacy" "privacy_policy"
      ∷ footer_write "#footer-accessibility" "accessibility_statement"
      ∷ ("#footer-legal-nav", set_attr "aria-label" (local "footer" "nav_label" ""))
      ∷ ("#noscript-message", set_text (local "noscript" "message" ""))
      ∷ ("#tab-title", set_text_if_new (local "titles" "page_title" ""))
      ∷ ("meta[name=\"description\"]", set_description (local "meta" "description" ""))
      ∷ []

  unfoldable pub load_document : Page → Page
  load_document page = update_all (document_writes (is_there (page "#eid-title"))) page

  -- `document.title`.
  unfoldable pub load_title : String → String
  load_title title =
      let page_title = local "titles" "page_title" "" in
      if is_truthy page_title && not (title == page_title) then page_title else title
