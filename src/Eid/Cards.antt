-- ===== src/Eid/Cards.antt =====
-- The cards: `createLogoButton`, `createEidCardBox` and `createEidCardsRow`, as the trees that they
-- build. `window.location.search` is an argument, and `toLowerCase` a parameter. The listeners are
-- the steps of `Eid.Dropdown` and `Eid.Menu.Panel`.
pub mod Button
pub mod Laws
use satosa_saml2spid.Base.{
  ◌>>=◌, String, ℕ, ◌<>◌, ◌||◌, Option, none, some, Result, ok, List, [], ◌∷◌, ◌==◌, eqb, leb,
  if◌then◌else◌, is_truthy,
}
use satosa_saml2spid.Dom.Tree.{Node, element, el, text, html, text_nodes}
use satosa_saml2spid.Dom.Page.{set_entry}
use satosa_saml2spid.Eid.Bundle.{Group, Bundle, read, or_else, text_of}
use satosa_saml2spid.Eid.Entries.{Card, get_eid_entries_for_row}
use satosa_saml2spid.Eid.Slug.{eid_card_slug}
use satosa_saml2spid.Eid.LearnMore.{is_given, create_learn_more}
use satosa_saml2spid.Eid.Cards.Button.{create_logo_button}
use satosa_saml2spid.Eid.Cards.Button.Classes

-- `learnMoreElem.classList.add('mt-2')`.
unfoldable pub add_margin : Node → Node
unfolding set_entry
add_margin (element tag attrs ns) = element tag (Classes.add "mt-2" attrs) ns
add_margin (text s) = text s
add_margin (html s) = html s

-- `Math.min(6, Math.max(2, headingLevel))` as a tag.
unfoldable pub heading_tag : ℕ → String
heading_tag level =
    if leb level 2
    then "h2"
    else if eqb level 3
    then "h3"
    else if eqb level 4
    then "h4"
    else if eqb level 5
    then "h5"
    else "h6"

abbrev pub learn_more_nodes : Option Node → List Node
learn_more_nodes none = []
learn_more_nodes (some n) = add_margin n ∷ []

-- `resource[id_key]`, for the two keys that the page uses.
abbrev pub group_of : Bundle → String → Group
group_of r id_key = if id_key == "alternative_id" then r.alternative_id else r.digital_id

module _ (to_lower : String → String) (search : String) (r : Bundle) where
  abbrev pub card_title_id : Card → String
  card_title_id c = "eid-card-title-" <> eid_card_slug to_lower c.eid.name

  -- The article, of its button and the "learn more" element that may stand below it.
  unfoldable pub card_article : Card → ℕ → Node → Option Node → Node
  unfolding heading_tag
  card_article c level button learn_more =
      el "article" (("class", "it-card shadow") ∷ ("aria-labelledby", card_title_id c) ∷ []) (
        el (heading_tag level) (("class", "it-card-title mb-3 h4") ∷ ("id", card_title_id c) ∷ [])
          (text_nodes (text_of c.eid.name))
        ∷ el "div" (("class", "it-card-body d-flex flex-column") ∷ []) (
            el "div"
              (("class", "d-flex justify-content-between align-items-center flex-wrap gap-2") ∷ [])
              (button ∷ [])
            ∷ learn_more_nodes learn_more)
        ∷ [])

  -- `createEidCardBox`.
  unfoldable pub create_eid_card_box : Card → ℕ → Result Node
  create_eid_card_box c level = do
    button ← create_logo_button to_lower search c
    learn_more ←
        if is_given c.eid.learn_more_link || is_given c.eid.learn_more_descr
        then create_learn_more to_lower r c.eid (card_title_id c)
        else ok none
    ok (card_article c level button learn_more)

  -- The list items of a row.
  unfoldable pub card_columns : ℕ → List Card → Result (List Node)
  card_columns level [] = ok []
  card_columns level (c ∷ cs) = do
    box ← create_eid_card_box c level
    rest ← card_columns level cs
    ok (el "li" (("class", "col-12 col-md-3 mb-3 mb-md-4 eid-card-col") ∷ []) (box ∷ []) ∷ rest)

  -- `id_key` is one of the two groups.
  unfoldable pub list_label : String → String
  list_label id_key =
      if id_key == "alternative_id"
      then or_else (read r "titles" "login_alternative_method") ""
      else or_else (read r "titles" "login_digital_identity") ""

  -- `createEidCardsRow`: the list that is appended to the section.
  unfoldable pub create_eid_cards_row : String → ℕ → Result Node
  unfolding list_label
  create_eid_cards_row id_key level = do
    columns ← card_columns level (get_eid_entries_for_row (group_of r id_key))
    let label = list_label id_key
    ok (
        el "ul"
          (("class", "row it-card-list justify-content-center align-items-start eid-cards-row")
            ∷ (if is_truthy label then ("aria-label", label) ∷ [] else []))
          columns)
