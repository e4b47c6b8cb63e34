-- ===== src/Wallet/Controls/MobilePanel.antt =====
-- The panel with the controls on small screens, on a page that may lack any part of it.
-- The frame that moves the focus is taken at once.
pub mod Reload
use satosa_saml2spid.Base.{
  String, Bool, true, false, not, ◌&&◌, ◌||◌, ◌≡◌, refl, inl, inr, if◌then◌else◌, Bool-cases, arith,
}
use satosa_saml2spid.Eid.Bundle.{Bundle, read, or_else}
use satosa_saml2spid.Wallet.Find.{announce_wallet_status_message}

-- Where the panel has put the focus.
pub data PanelFocus : Type 0 where
  on_input on_toggle elsewhere : PanelFocus

-- Which elements the page has: the panel, its button, the icons of the button, the search input, and the
-- live region.
pub record PanelParts : Type 0 where
  pub has_panel : Bool
  pub has_toggle : Bool
  pub has_open_icon : Bool
  pub has_close_icon : Bool
  pub has_input : Bool
  pub has_status : Bool

-- `is_open` is the class `is-mobile-panel-open`; the last four are of the button and its two icons.
pub record MobilePanel : Type 0 where
  pub parts : PanelParts
  pub is_open : Bool
  pub hidden : Bool
  pub status : String
  pub focus : PanelFocus
  pub expanded : Bool
  pub toggle_label : String
  pub open_icon_hidden : Bool
  pub close_icon_hidden : Bool

module _ (r : Bundle) where
  -- `syncMobilePanelUi`.
  unfoldable pub sync_mobile_panel_ui : Bool → MobilePanel → MobilePanel
  sync_mobile_panel_ui is_shown p = if not p.parts.has_toggle then p else record p {
    expanded = is_shown;
    toggle_label =
        if is_shown
        then or_else (read r "search" "toggle_close") "Chiudi ricerca e ordinamento wallet"
        else or_else (read r "search" "toggle_open") "Apri ricerca e ordinamento wallet";
    open_icon_hidden = if p.parts.has_open_icon then is_shown else p.open_icon_hidden;
    close_icon_hidden = if p.parts.has_close_icon then not is_shown else p.close_icon_hidden;
  }

  -- Where the focus goes when the panel is opened or closed.
  unfoldable pub focus_after : Bool → MobilePanel → PanelFocus
  focus_after is_shown p =
      if is_shown
      then (if p.parts.has_input then on_input else p.focus)
      else if p.parts.has_toggle
      then on_toggle
      else p.focus

  -- `setMobilePanelOpen`: nothing without the controls, or on a wide screen.
  unfoldable pub set_mobile_panel_open : Bool → Bool → Bool → MobilePanel → MobilePanel
  unfolding sync_mobile_panel_ui focus_after announce_wallet_status_message
  set_mobile_panel_open show_controls is_desktop is_shown p =
      let message =
        if is_shown
        then or_else (read r "search" "panel_open")
            "Strumenti di ricerca e ordinamento visualizzati"
        else or_else (read r "search" "panel_closed")
            "Strumenti di ricerca e ordinamento nascosti" in
      let changed = record p {
        is_open = is_shown;
        hidden = not is_shown;
        status = announce_wallet_status_message p.parts.has_status message p.status;
        focus = focus_after is_shown p;
      } in
      if not p.parts.has_panel || not show_controls || is_desktop
      then p
      else sync_mobile_panel_ui is_shown changed

  -- `resetMobilePanelForDesktop`.
  unfoldable pub reset_mobile_panel_for_desktop : MobilePanel → MobilePanel
  unfolding sync_mobile_panel_ui
  reset_mobile_panel_for_desktop p =
      if not p.parts.has_panel
      then p
      else sync_mobile_panel_ui false (record p { is_open = false; hidden = false })

  -- `onclick` of the button, where there is one.
  unfoldable pub toggle_click : Bool → Bool → MobilePanel → MobilePanel
  unfolding set_mobile_panel_open
  toggle_click show_controls is_desktop p =
      if not p.parts.has_toggle || not show_controls || is_desktop
      then p
      else set_mobile_panel_open show_controls is_desktop (not (p.parts.has_panel && p.is_open)) p

  -- `Escape` with the sort menu closed.
  unfoldable pub escape : Bool → Bool → MobilePanel → MobilePanel
  unfolding set_mobile_panel_open
  escape show_controls is_desktop p =
      if is_desktop || not (p.parts.has_panel && p.is_open)
      then p
      else set_mobile_panel_open show_controls is_desktop false p

-- The button and its icons say whether the panel is open, and nothing is set of what the page lacks.
abbrev pub IsTold : MobilePanel → Type 0
IsTold p =
    (p.expanded ≡ (p.parts.has_toggle && p.is_open))
    × (p.open_icon_hidden ≡ (p.parts.has_toggle && p.parts.has_open_icon && p.is_open))
    × (p.close_icon_hidden ≡ (p.parts.has_toggle && p.parts.has_close_icon && not p.is_open))

-- The panel shows, and its button and icons say so, exactly while it is open.
abbrev pub IsAligned : MobilePanel → Type 0
IsAligned p = (p.hidden ≡ not p.is_open) × IsTold p

-- An event that may leave the panel as it was.
pub if-kept {ℓ} :
    (P : MobilePanel → Type ℓ) (b : Bool) (p q : MobilePanel) → P p → P q → P (if b then p else q)
if-kept P true p q h k = h
if-kept P false p q h k = k

pub sync-IsTold :
    (r : Bundle) (b h : Bool) (s : String) (f : PanelFocus) (p : MobilePanel)
    → IsTold p
    → let q = record p { is_open = b; hidden = h; status = s; focus = f } in
      IsTold (sync_mobile_panel_ui r b q)
      × ((sync_mobile_panel_ui r b q).hidden ≡ h)
      × ((sync_mobile_panel_ui r b q).is_open ≡ b)
unfolding sync_mobile_panel_ui
sync-IsTold r b h s f p (e, i, j) = elim (Bool-cases p.parts.has_toggle) [
  | inl y ↦ rw y ((refl, ground arith, ground arith), refl, refl)
  | inr n ↦ rw n ((ground arith, ground arith, ground arith), refl, refl)
]

pub set-IsTold :
    (r : Bundle) (c d b : Bool) (p : MobilePanel)
    → IsTold p
    → IsTold (set_mobile_panel_open r c d b p)
unfolding set_mobile_panel_open
set-IsTold r c d b p h =
    if-kept IsTold (not p.parts.has_panel || not c || d) _ _ h (sync-IsTold r b _ _ _ p h).0

sync-IsAligned :
    (r : Bundle) (b : Bool) (s : String) (f : PanelFocus) (p : MobilePanel)
    → IsTold p
    → IsAligned
        (sync_mobile_panel_ui r b (record p { is_open = b; hidden = not b; status = s; focus = f }))
sync-IsAligned r b s f p h = let t = sync-IsTold r b (not b) s f p h in (rw (t.1, t.2) refl, t.0)

set-IsAligned :
    (r : Bundle) (c d b : Bool) (p : MobilePanel)
    → IsAligned p
    → IsAligned (set_mobile_panel_open r c d b p)
unfolding set_mobile_panel_open
set-IsAligned r c d b p h =
    if-kept IsAligned (not p.parts.has_panel || not c || d) _ _ h (sync-IsAligned r b _ _ p h.1)

abbrev pub whole : PanelParts
whole = record {
  has_panel = true;
  has_toggle = true;
  has_open_icon = true;
  has_close_icon = true;
  has_input = true;
  has_status = true;
}

-- A click on the button and Escape keep the panel, its button and its icons in step on every screen, and
-- on a small screen with the controls shown, on a page with all its parts, Escape closes an open panel
-- and gives the focus back to the button.
pub toggle_click-IsAligned :
    (r : Bundle) (show_controls is_desktop : Bool) (p : MobilePanel)
    → IsAligned p
    → let q = record p { parts = whole; is_open = true } in
      IsAligned (toggle_click r show_controls is_desktop p)
      × IsAligned (escape r show_controls is_desktop p)
      × ((escape r true false q).is_open ≡ false)
      × ((escape r true false q).focus ≡ on_toggle)
unfolding toggle_click escape
toggle_click-IsAligned r c d p h = (
  if-kept IsAligned (not p.parts.has_toggle || not c || d) p _ h (set-IsAligned r c d _ p h),
  if-kept IsAligned (d || not (p.parts.has_panel && p.is_open)) p _ h
      (set-IsAligned r c d false p h),
  refl,
  refl,
)
