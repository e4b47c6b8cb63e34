-- ===== src/Eid/LearnMore.antt =====
-- `createLearnMore`, and the links that open in a new window.
pub mod Laws
use satosa_saml2spid.Base.{
  ◌>>=◌, String, ◌<>◌, Bool, true, false, Option, none, some, Result, ok, List, [], ◌∷◌, ◌++◌,
  if◌then◌else◌, is_truthy,
}
use satosa_saml2spid.Dom.Tree.{Node, el, text, html, text_nodes, children_if}
use satosa_saml2spid.Eid.Bundle.{Eid, Bundle, read, read_in, or_else, text_of}
use satosa_saml2spid.Eid.Slug.{eid_card_slug}

-- `!!value`.
abbrev pub is_given : Option String → Bool
is_given none = false
is_given (some s) = is_truthy s

-- `newWindowHintText`.
unfoldable pub new_window_hint_text : Bundle → String
new_window_hint_text r = or_else (read r "footer" "new_window_hint") "si apre in una nuova finestra"

-- `setExternalLinkA11y`: the attribute that it sets, if any.
unfoldable pub external_link_a11y : Option String → Bundle → List (String × String)
unfolding new_window_hint_text
external_link_a11y none r = []
external_link_a11y (some visible) r =
    ("aria-label", visible <> " (" <> new_window_hint_text r <> ")") ∷ []

abbrev icon_path : String
icon_path =
    "M21 3v6h-1V4.7l-7.6 7.7-.8-.8L19.3 4H15V3h6zm-4 16.5c0 .3-.2.5-.5.5h-12c-.3 0-.5-.2-.5-.5v-12c0-.3.2-.5.5-.5H12V6H4.5C3.7 6 3 6.7 3 7.5v12c0 .8.7 1.5 1.5 1.5h12c.8 0 1.5-.7 1.5-1.5V12h-1v7.5z"

-- The icon of an external link.
unfoldable pub external_icon : Node
external_icon =
    el "svg"
      (("aria-hidden", "true")
        ∷ ("width", "16")
        ∷ ("height", "16")
        ∷ ("viewBox", "0 0 24 24")
        ∷ ("fill", "#0066cc")
        ∷ [])
      (el "path" (("d", icon_path) ∷ []) [] ∷ [])

-- A link that opens in a new window.
unfoldable pub new_window_link : String → String → Option String → Bundle → Node
unfolding external_link_a11y external_icon
new_window_link href class label r =
    el "a"
      (("href", href)
        ∷ ("target", "_blank")
        ∷ ("rel", "noopener noreferrer")
        ∷ ("class", class)
        ∷ external_link_a11y label r)
      (text_nodes (text_of label) ++ (text " " ∷ external_icon ∷ []))

-- The arrow of the toggle.
unfoldable pub arrow_icon : Node
arrow_icon =
    el "svg"
      (("class", "eid-learn-more-arrow")
        ∷ ("aria-hidden", "true")
        ∷ ("width", "4")
        ∷ ("height", "3")
        ∷ ("viewBox", "0 0 16 16")
        ∷ [])
      (el "path"
          (("fill", "none")
            ∷ ("stroke", "#0066cc")
            ∷ ("stroke-width", "2")
            ∷ ("stroke-linecap", "round")
            ∷ ("stroke-linejoin", "round")
            ∷ ("d", "m2 5 6 6 6-6")
            ∷ [])
          []
        ∷ [])

-- `a ?? b`, where reading `b` may throw.
abbrev pub coalesce : Option String → Result (Option String) → Result (Option String)
coalesce none b = b
coalesce (some s) b = ok (some s)

-- The toggle and its panel, closed: `syncLearnMoreToggleA11y(…, false)` has run.
unfoldable pub learn_more_panel :
    (String → String) → Bundle → Eid → String → Option String → Option String → String → Node
unfolding arrow_icon
learn_more_panel to_lower r eid title_id toggle_label cta_label descr =
    let content_id = "eid-learn-more-" <> eid_card_slug to_lower eid.name in
    let action_id = content_id <> "-action" in
    el "div" (("class", "mt-2") ∷ []) (
      el "button"
        (("type", "button")
          ∷ ("id", content_id <> "-toggle")
          ∷ ("class", "eid-learn-more-toggle")
          ∷ ("aria-controls", content_id)
          ∷ ("aria-expanded", "false")
          ∷ ("aria-labelledby", action_id <> " " <> title_id)
          ∷ [])
        (el "span" (("id", action_id) ∷ ("class", "eid-learn-more-toggle-label") ∷ [])
            (text_nodes (text_of toggle_label))
          ∷ arrow_icon
          ∷ [])
      ∷ el "div"
          (("id", content_id)
            ∷ ("role", "region")
            ∷ ("aria-live", "off")
            ∷ ("aria-labelledby", title_id <> " " <> action_id)
            ∷ ("class", "mt-2 eid-learn-more-content")
            ∷ ("hidden", "")
            ∷ [])
          (html descr
            ∷ (children_if (is_given eid.learn_more_link) (
                new_window_link (text_of eid.learn_more_link) "eid-find-how-link" cta_label r
                ∷ [])))
      ∷ [])

-- `createLearnMore`. The order of attributes has no meaning.
unfoldable pub create_learn_more : (String → String) → Bundle → Eid → String → Result (Option Node)
create_learn_more to_lower r eid card_title_id = do
  toggle_label ← coalesce eid.learn_more_toggle_label (read_in r "titles" "learn_more")
  find_label ← coalesce eid.learn_more_label (read_in r "titles" "find_how_to_get_digital_id")
  cta_label ← coalesce find_label (read_in r "titles" "learn_more")
  let title_id =
      if is_truthy card_title_id
      then card_title_id
      else "eid-card-title-" <> eid_card_slug to_lower eid.name
  let panel =
      learn_more_panel to_lower r eid title_id toggle_label cta_label (text_of eid.learn_more_descr)
  let link = new_window_link (text_of eid.learn_more_link) "d-block mt-2" cta_label r
  ok (
      if is_given eid.learn_more_descr
      then some panel
      else if is_given eid.learn_more_link
      then some link
      else none)
