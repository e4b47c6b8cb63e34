-- ===== src/ErrorPage.antt =====
-- The texts of the error page: `js/error-i18n.js`. The translator `i18next.t` is a parameter; a key
-- that it does not know comes back as it is.
pub mod Laws
pub mod Session
mod Tests
use satosa_saml2spid.Base.{
  String, ◌<>◌, Bool, ◌&&◌, Option, none, some, List, map, ◌==◌, if◌then◌else◌, is_truthy, trim,
}
use satosa_saml2spid.Dom.Page.{set_attr, set_text, Page, update}

-- An element with `data-i18n` below another one.
pub record Inner : Type 0 where
  pub key : String
  pub text : String

-- An element of the page: its three markers, the marked element below it, its text and its label.
-- An element with a text of its own to translate has no marked element below it.
pub record Item : Type 0 where
  pub i18n : Option String
  pub aria_key : Option String
  pub is_new_window : Bool
  pub inner : Option Inner
  pub text : String
  pub aria_label : Option String

module _ (t : String → String) where
  -- The text for a key; the name of the region falls back on the name of the organization.
  unfoldable pub text_for : String → String
  text_for key =
      if (t key == key) && (key == "header.region_name")
      then t "header.organization_name"
      else t key

  unfoldable pub translate_inner : Inner → Inner
  unfolding text_for
  translate_inner i = if is_truthy i.key then record i { text = text_for i.key } else i

  -- The pass over `data-i18n`.
  unfoldable pub translate_text : Item → Item
  unfolding text_for translate_inner
  translate_text e = elim e.i18n [
    | none ↦ record e { inner = elim e.inner [ none ↦ none | some i ↦ some (translate_inner i) ] }
    | some key ↦ if is_truthy key then record e { text = text_for key } else e
  ]

  -- The pass over `data-i18n-aria-label`.
  unfoldable pub translate_label : Item → Item
  translate_label e = elim e.aria_key [
    | none ↦ e
    | some key ↦ if is_truthy key then record e { aria_label = some (t key) } else e
  ]

  -- The text that a link shows: its own, or that of the marked element below it.
  unfoldable pub visible_text : Item → String
  visible_text e = elim e.i18n [
    | none ↦ elim e.inner [ none ↦ trim e.text | some i ↦ trim i.text ]
    | some key ↦ trim e.text
  ]

  -- The pass over `data-i18n-newwindow`.
  unfoldable pub announce_window : Item → Item
  unfolding visible_text
  announce_window e =
      let hint = t "footer.new_window_hint" in
      let label = visible_text e in
      if e.is_new_window
      then record e {
        aria_label = some (if is_truthy hint then label <> " (" <> hint <> ")" else label);
      }
      else e

  -- `applyErrorTranslations` on the marked elements: each pass goes over all of them.
  unfoldable pub apply_to_items : List Item → List Item
  unfolding translate_text translate_label announce_window
  apply_to_items items = map announce_window (map translate_label (map translate_text items))

  -- Its writes to the title of the page and to its description.
  unfoldable pub apply_to_page : Page → Page
  unfolding update set_attr set_text
  apply_to_page page =
      update "meta[name=\"description\"]" (set_attr "content" (t "meta.description"))
        (update "#error-page-title" (set_text (t "meta.title")) page)

-- `document.documentElement.lang`.
unfoldable pub html_lang : String → String
html_lang language = if language == "it" then "it" else "en"
