-- ===== src/Eid/Menu/Wiring.antt =====
-- How the listeners of the SPID menu are added, and what they come to together: a click on the trigger,
-- a key on it, and the plugin's own event. The listeners of the document run first, since they capture.
pub mod Laws
mod Tests
use satosa_saml2spid.Base.{
  String, ℕ, zero, suc, Bool, true, false, not, ◌&&◌, ◌||◌, Option, none, some, List, filter, ◌==◌,
  ltb, if◌then◌else◌,
}
use satosa_saml2spid.Eid.Menu.{Focus, link, trigger, elsewhere, Menu, on_opened}
use satosa_saml2spid.Eid.Menu.Panel.{
  Panel, Browser, cleared, is_open, close_menu, document_keydown, trigger_click, trigger_keydown,
  ignored, stepped, opened,
}

-- What the browser says of an element that `a[href]` selects.
pub record Link : Type 0 where
  pub is_anchor : Bool
  pub has_offset_parent : Bool
  pub display : String

-- `getSpidMenuFocusableLinks`.
unfoldable pub focusable_links : List Link → List Link
focusable_links = filter (λ l. l.is_anchor && (l.has_offset_parent || not (l.display == "none")))

-- The listeners of the menu and the trigger that are in the page, and of the document; the mark of the
-- menu, and that of the window.
pub record Listeners : Type 0 where
  pub kb_bound : Bool
  pub menu_keys : ℕ
  pub trigger_clicks : ℕ
  pub trigger_keys : ℕ
  pub shows : ℕ
  pub global_bound : Bool
  pub global_clicks : ℕ
  pub global_keys : ℕ

-- `bindSpidMenuKeyboard`; the event of the plugin is there with jQuery only.
unfoldable pub bind_spid_menu_keyboard : Bool → Listeners → Listeners
bind_spid_menu_keyboard jquery w = if w.kb_bound then w else record w {
  kb_bound = true;
  menu_keys = suc w.menu_keys;
  trigger_keys = suc w.trigger_keys;
  shows = if jquery then suc w.shows else w.shows;
}

-- `ensureEidSpidGlobalListeners`.
unfoldable pub ensure_eid_spid_global_listeners : Listeners → Listeners
ensure_eid_spid_global_listeners w = if w.global_bound then w else record w {
  global_bound = true;
  global_clicks = suc w.global_clicks;
  global_keys = suc w.global_keys;
}

-- The new menu and the new trigger of a card, with no listener of theirs.
abbrev pub new_elements : Listeners → Listeners
new_elements w = record w {
  kb_bound = false;
  menu_keys = 0;
  trigger_clicks = 0;
  trigger_keys = 0;
  shows = 0;
}

-- The two listeners that the card adds to its trigger itself: the click that closes the menu, and Escape.
unfoldable pub add_trigger_listeners : Listeners → Listeners
add_trigger_listeners w = record w {
  trigger_clicks = suc w.trigger_clicks;
  trigger_keys = suc w.trigger_keys;
}

-- A card that is created.
unfoldable pub render_card : Bool → Listeners → Listeners
unfolding add_trigger_listeners bind_spid_menu_keyboard ensure_eid_spid_global_listeners
render_card jquery w =
    ensure_eid_spid_global_listeners
      (bind_spid_menu_keyboard jquery (add_trigger_listeners (new_elements w)))

unfoldable pub render_cards : Bool → ℕ → Listeners → Listeners
unfolding render_card
render_cards jquery zero w = w
render_cards jquery (suc n) w = render_cards jquery n (render_card jquery w)

module _ (b : Browser) where
  -- The `click` listener of the document: the panel gets its inline `display` taken off.
  unfoldable pub document_click : Panel → Panel
  document_click p = record p { display = cleared }

  -- The plugin's own listener, unless the event was stopped before it.
  unfoldable pub plugin_click : Panel × Bool → Panel
  plugin_click (p, true) = p
  plugin_click (p, false) = if b.jquery then b.click p else p

  -- A click on the trigger: the listener of the document, that of the trigger, and the plugin's.
  unfoldable pub click : Panel → Panel
  unfolding document_click trigger_click plugin_click
  click p = plugin_click (trigger_click b (document_click p))

  -- A key on the trigger: the listener of the document, the two of the trigger, and the frame that is
  -- asked for, with the end of the menu that it focuses.
  unfoldable pub key_on_trigger : String → Panel → Panel × Option Bool
  unfolding document_keydown close_menu trigger_keydown
  key_on_trigger key p =
      let (q, stopped) = document_keydown b key p in
      let r : Panel = if key == "Escape" then close_menu b q else q in
      if stopped then (q, none) else elim (trigger_keydown b key r) [
        | ignored ↦ (r, none)
        | stepped s taken ↦ (s, none)
        | opened s focus_last ↦ (s, some focus_last)
      ]

  -- `links.includes(document.activeElement)`.
  abbrev pub in_links : ℕ → Focus → Bool
  in_links n (link i) = ltb i n
  in_links n trigger = false
  in_links n elsewhere = false

  -- The listener of `show.eidSpidKb`.
  unfoldable pub on_show : Panel → Panel
  unfolding is_open on_opened
  on_show p =
      let n = b.links p in
      if not (is_open b p) || in_links n p.menu.focus
      then p
      else record p { menu = on_opened n false p.menu }
