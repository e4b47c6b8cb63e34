-- ===== src/Eid/Menu/Panel.antt =====
-- The panel with the menu: how it opens, closes, and answers the keys of the trigger and the page.
-- The button plugin, the layout of the page and the list of visible links are the browser's, and
-- enter as parameters.
pub mod Laws
use satosa_saml2spid.Base.{
  String, ℕ, Bool, true, false, not, ◌&&◌, ◌||◌, none, map, ◌==◌, if◌then◌else◌,
}
use satosa_saml2spid.Eid.Menu.{trigger, Menu, on_opened, handle_arrow}

-- The inline `display` of the panel.
pub data Display : Type 0 where
  cleared : Display
  hidden : Display
  hidden_important : Display
  shown : Display

-- `marked` is the class `spid-idp-button-open` of the trigger, `menu.expanded` its `aria-expanded`.
pub record Panel : Type 0 where
  pub marked : Bool
  pub display : Display
  pub menu : Menu

-- What the page relies on: the plugin's two calls, if jQuery is there; whether the computed style
-- shows the panel; and the number of links that the browser lists.
pub record Browser : Type 0 where
  pub jquery : Bool
  pub click : Panel → Panel
  pub hide : Panel → Panel
  pub is_shown : Panel → Bool
  pub links : Panel → ℕ

module _ (b : Browser) where
  -- `isSpidDiscoveryMenuOpen`.
  unfoldable pub is_open : Panel → Bool
  is_open p = p.marked && b.is_shown p

  -- `openSpidDiscoveryMenu` up to the next frame.
  unfoldable pub open_menu : Panel → Panel
  open_menu p =
      let q = record p { display = cleared } in if not q.marked && b.jquery then b.click q else q

  -- The frame that it requests.
  unfoldable pub on_frame : Bool → Panel → Panel
  on_frame focus_last p = record p { menu = on_opened (b.links p) focus_last p.menu }

  -- `resetSpidMenuRovingTabindex`.
  unfoldable pub reset_tabs : Menu → Menu
  reset_tabs m = record m { tabs = map (λ _. none) m.tabs }

  -- `closeEidSpidDiscoveryMenu(trigger, menu)`, with both elements at hand.
  unfoldable pub close_menu : Panel → Panel
  unfolding reset_tabs
  close_menu p =
      let focused = record p { menu = record p.menu { focus = trigger } } in
      let q = if b.jquery then b.hide focused else focused in
      record {
        marked = false;
        display = hidden_important;
        menu = reset_tabs (record q.menu { expanded = false });
      }

  -- `closeEidSpidDiscoveryMenu()`, which looks for an open trigger, and then for a visible panel.
  unfoldable pub close_any : Panel → Panel × Bool
  close_any p = if p.marked || b.is_shown p then (close_menu p, true) else (p, false)

  -- The capturing `keydown` listener of the document: whether it has stopped the event.
  unfoldable pub document_keydown : String → Panel → Panel × Bool
  document_keydown key p = if key == "Escape" then close_any p else (p, false)

  -- The `click` listener of the trigger, before the plugin's: whether it has stopped the event.
  unfoldable pub trigger_click : Panel → Panel × Bool
  trigger_click p = if p.marked then (close_menu p, true) else (p, false)

  -- What the trigger's `keydown` listener of `bindSpidMenuKeyboard` does: nothing, a step in the open
  -- menu, or opening it with a frame to come, which focuses the first link or the last.
  pub data Answer : Type 0 where
    ignored : Answer
    stepped : Panel → Bool → Answer
    opened : Panel → Bool → Answer

  unfoldable pub trigger_keydown : String → Panel → Answer
  trigger_keydown key p =
      if key == "Escape"
      then ignored
      else if is_open p
      then (let (m, taken) = handle_arrow (b.links p) key p.menu in
          stepped (record p { menu = m }) taken)
      else if (key == "ArrowDown") || (key == "ArrowRight")
      then opened (open_menu p) false
      else if (key == "ArrowUp") || (key == "ArrowLeft")
      then opened (open_menu p) true
      else ignored

  -- The `keydown` listener of the menu.
  unfoldable pub menu_keydown : String → Panel → Panel × Bool
  menu_keydown key p =
      if is_open p
      then (let (m, taken) = handle_arrow (b.links p) key p.menu in (record p { menu = m }, taken))
      else (p, false)
