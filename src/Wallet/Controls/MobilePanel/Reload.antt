-- ===== src/Wallet/Controls/MobilePanel/Reload.antt =====
-- The panel through the loads of the page and the changes of its width: what a load does to it, and the
-- listener of `resize`.
use satosa_saml2spid.Base.{
  Bool, true, false, not, ◌&&◌, ◌||◌, ◌≡◌, refl, ◌↔◌, inl, inr, if◌then◌else◌, Bool-cases, arith,
}
use satosa_saml2spid.Eid.Bundle.{Bundle}
use satosa_saml2spid.Wallet.Controls.MobilePanel.{
  MobilePanel, IsTold, if-kept, sync-IsTold, set-IsTold, sync_mobile_panel_ui,
  reset_mobile_panel_for_desktop, toggle_click, escape,
}

-- A click on the button; Escape; a change to a wide or a small screen; and a load.
pub data Event : Type 0 where
  clicked escaped : Event
  resized : (is_desktop : Bool) → Event
  reloaded : Event

-- The panel, and whether the screen is wide.
pub record View : Type 0 where
  pub panel : MobilePanel
  pub is_desktop : Bool

module _ (r : Bundle) where
  -- The end of a load.
  unfoldable pub load_panel : Bool → MobilePanel → MobilePanel
  unfolding sync_mobile_panel_ui reset_mobile_panel_for_desktop
  load_panel is_desktop p =
      if is_desktop
      then reset_mobile_panel_for_desktop r p
      else record (sync_mobile_panel_ui r false p) {
        hidden = if p.parts.has_panel then true else p.hidden;
      }

  -- The listener of `resize`.
  unfoldable pub on_resize : Bool → MobilePanel → MobilePanel
  unfolding reset_mobile_panel_for_desktop
  on_resize is_desktop p = if is_desktop then reset_mobile_panel_for_desktop r p else p

  unfoldable pub step : Bool → Event → View → View
  unfolding load_panel on_resize toggle_click escape
  step show_controls clicked v = record v {
    panel = toggle_click r show_controls v.is_desktop v.panel;
  }
  step show_controls escaped v = record v { panel = escape r show_controls v.is_desktop v.panel }
  step show_controls (resized is_desktop) v = record v {
    panel = on_resize is_desktop v.panel;
    is_desktop = is_desktop;
  }
  step show_controls reloaded v = record v { panel = load_panel v.is_desktop v.panel }

-- Not a load on a small screen with the panel open and its button there.
abbrev pub IsHarmless : Event → View → Type 0
IsHarmless clicked v = Unit
IsHarmless escaped v = Unit
IsHarmless (resized is_desktop) v = Unit
IsHarmless reloaded v = (not v.is_desktop && v.panel.is_open && v.panel.parts.has_toggle) ≡ false

reset-IsTold :
    (r : Bundle) (p : MobilePanel) → IsTold p → IsTold (reset_mobile_panel_for_desktop r p)
unfolding reset_mobile_panel_for_desktop
reset-IsTold r p h =
    if-kept IsTold (not p.parts.has_panel) _ _ h (sync-IsTold r false false p.status p.focus p h).0

load-IsTold :
    (r : Bundle) (d : Bool) (p : MobilePanel)
    → IsTold p
    → IsTold (load_panel r d p) ↔ ((not d && p.is_open && p.parts.has_toggle) ≡ false)
unfolding load_panel
load-IsTold r true p h = (λ _. refl, λ _. reset-IsTold r p h)
load-IsTold r false p (e, i, j) = elim (Bool-cases p.parts.has_toggle) [
  | inl y ↦ rw y (λ (k, l, m). ground arith, λ k. (ground arith, ground arith, ground arith))
  | inr n ↦ rw n (λ _. ground arith, λ _. (ground arith, ground arith, ground arith))
]

-- With the button in step with the panel, each event keeps it so, on every screen and whatever the page
-- lacks, but for one: a load on a small screen with the panel open and the button there leaves it open
-- while the button says that it is closed.
pub step-IsTold :
    (r : Bundle) (show_controls : Bool) (e : Event) (v : View)
    → IsTold v.panel
    → IsTold (step r show_controls e v).panel ↔ IsHarmless e v
unfolding step toggle_click escape on_resize
step-IsTold r c clicked v h = (
  λ _. tt,
  λ _.
      if-kept IsTold (not v.panel.parts.has_toggle || not c || v.is_desktop) v.panel _ h
        (set-IsTold r c v.is_desktop _ v.panel h),
)
step-IsTold r c escaped v h = (
  λ _. tt,
  λ _.
      if-kept IsTold (v.is_desktop || not (v.panel.parts.has_panel && v.panel.is_open)) v.panel _ h
        (set-IsTold r c v.is_desktop false v.panel h),
)
step-IsTold r c (resized true) v h = (λ _. tt, λ _. reset-IsTold r v.panel h)
step-IsTold r c (resized false) v h = (λ _. tt, λ _. h)
step-IsTold r c reloaded v h = load-IsTold r v.is_desktop v.panel h
