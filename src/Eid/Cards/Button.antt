-- ===== src/Eid/Cards/Button.antt =====
-- `createLogoButton`: the button of a card, with a menu for CIE and for SPID.
pub mod Classes
use satosa_saml2spid.Base.{
  ◌>>=◌, String, ◌<>◌, Bool, true, false, not, ◌&&◌, ◌||◌, Option, none, some, Result, ok, err,
  List, [], ◌∷◌, ◌++◌, map, if◌then◌else◌, is_truthy, includes,
}
use satosa_saml2spid.Dom.Tree.{Node, el, html, text_nodes, children_if}
use satosa_saml2spid.Eid.Bundle.{Eid, text_of, dom_string}
use satosa_saml2spid.Eid.Entries.{Card}
use satosa_saml2spid.Eid.Slug.{eid_card_slug}

-- `EID_SPID_DISCOVERY_MENU_ID`.
abbrev pub spid_menu_id : String
spid_menu_id = "spid-idp-button-xlarge-post"

unfoldable pub logo_img : Eid → Node
logo_img eid =
    el "img"
      (("src", dom_string eid.logo)
        ∷ ("alt", "")
        ∷ ("aria-hidden", "true")
        ∷ ("class", "eid-card-logo")
        ∷ [])
      []

unfoldable pub text_span : Eid → Node
text_span eid =
    el "span" (("class", "eid-card-btn-label") ∷ []) (text_nodes (text_of eid.logo_text))

unfoldable pub separator : Node
separator = el "span" (("class", "eid-card-separator") ∷ ("aria-hidden", "true") ∷ []) []

abbrev pub button_class : String
button_class = "btn btn-primary d-flex align-items-center eid-card-btn"

-- An item of the CIE menu. Its text goes through the HTML parser.
unfoldable pub cie_option : Eid → Node
cie_option opt = el "li" (("class", "spid-idp-button-link") ∷ []) (
    el "a" (("href", dom_string opt.login_url) ∷ []) (
      html (
        "<img src=\""
        <> dom_string opt.logo
        <> "\" alt=\"\"> <span class=\"cie-option-label\">"
        <> dom_string opt.name
        <> "</span>")
      ∷ [])
    ∷ [])

-- `slice(1)`.
abbrev slice_1 : String → String
slice_1 String.[] = ""
slice_1 (String.◌∷◌ c s) = s

module _ (to_lower : String → String) where
  -- `value?.toLowerCase().includes(piece)`, as a condition.
  unfoldable pub mentions : Option String → String → Bool
  mentions none piece = false
  mentions (some s) piece = includes (to_lower s) piece

  unfoldable pub cie_menu : Eid → List Eid → Node
  unfolding logo_img text_span separator cie_option
  cie_menu eid options =
      let menu_id = "eid-cie-menu-" <> eid_card_slug to_lower eid.name in
      el "div" (("class", "ita ita-dropdown ita-l ita-fixed eid-cie-dropdown-wrapper") ∷ []) (
        el "button"
          (("type", "button")
            ∷ ("class", button_class <> " eid-card-btn-cie")
            ∷ ("aria-haspopup", "true")
            ∷ ("aria-expanded", "false")
            ∷ ("aria-controls", menu_id)
            ∷ [])
          (logo_img eid ∷ separator ∷ text_span eid ∷ [])
        ∷ el "ul"
            (("id", menu_id)
              ∷ ("class", "cie-dropdown-menu spid-idp-button-link")
              ∷ ("role", "list")
              ∷ [])
            (map cie_option options)
        ∷ [])

  unfoldable pub spid_menu : Eid → Node
  unfolding logo_img text_span separator
  spid_menu eid = el "div" (("class", "ita ita-l ita-fixed eid-cie-dropdown-wrapper") ∷ []) (
      el "button"
        (("type", "button")
          ∷ ("class", button_class <> " eid-card-btn-spid")
          ∷ ("spid-idp-button", "#" <> spid_menu_id)
          ∷ ("aria-haspopup", "true")
          ∷ ("aria-expanded", "false")
          ∷ ("aria-controls", spid_menu_id)
          ∷ [])
        (logo_img eid ∷ separator ∷ text_span eid ∷ [])
      ∷ el "div"
          (("id", spid_menu_id)
            ∷ ("class", "ita-menu")
            ∷ ("data-spid-remote", "")
            ∷ ("style", "display: none;")
            ∷ [])
          []
      ∷ [])

  unfoldable pub is_wallet : Eid → Bool
  unfolding mentions
  is_wallet eid = mentions eid.name "it-wallet" || mentions eid.logo "it-wallet"

  unfoldable pub is_cie : Eid → Bool
  unfolding mentions
  is_cie eid = mentions eid.name "cie" || mentions eid.logo "cie"

  unfoldable pub is_eidas : Eid → Bool
  unfolding mentions
  is_eidas eid =
      mentions eid.name "eidas" || mentions eid.logo_text "eidas" || mentions eid.logo "eidas"

  -- `href`: the query of the page goes on to the wallet. A wallet with no `login_url` throws.
  unfoldable pub target_href : String → Eid → Result (Option String)
  target_href search eid = elim (is_wallet eid && is_truthy search) [
    | false ↦ ok eid.login_url
    | true ↦ elim eid.login_url [
      | none ↦ err "TypeError"
      | some href ↦ ok (some (href <> (if includes href "?" then "&" else "?") <> slice_1 search))
    ]
  ]

  unfoldable pub plain_button : Eid → Node
  unfolding logo_img text_span separator
  plain_button eid =
      el "button"
        (("type", "button")
          ∷ (
            "class",
            button_class
                <> (if is_cie eid then " eid-card-btn-cie" else "")
                <> (if is_wallet eid then " eid-card-btn-wallet" else "")
                <> (if is_eidas eid then " eid-card-btn-eidas" else ""),
          )
          ∷ [])
        (logo_img eid
          ∷ (children_if (not (is_wallet eid)) (separator ∷ []) ++ (text_span eid ∷ [])))

  abbrev pub includes_in : Option String → String → Bool
  includes_in none piece = false
  includes_in (some s) piece = includes s piece

  -- The button of a card with no CIE menu: for SPID, or for any other method. The `href` is where its
  -- listener goes.
  unfoldable pub button_for : Bool → String → Eid → Result Node
  button_for true search eid = ok (spid_menu eid)
  button_for false search eid = do href ← target_href search eid; ok (plain_button eid)

  unfoldable pub create_logo_button : String → Card → Result Node
  create_logo_button search c = elim c.cie_options [
    | o ∷ os ↦ ok (cie_menu c.eid (o ∷ os))
    | [] ↦ button_for (includes_in c.eid.login_url "#spid-idp-button") search c.eid
  ]
