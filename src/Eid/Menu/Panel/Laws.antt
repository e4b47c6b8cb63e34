-- ===== src/Eid/Menu/Panel/Laws.antt =====
-- A closed panel is closed in every respect, whatever the plugin does.
use satosa_saml2spid.Base.{
  ℤ, ◌≡◌, refl, true, false, ◌||◌, Option, none, List, [], ◌∷◌, map, arith, All,
}
use satosa_saml2spid.Eid.Menu.Panel.{
  Panel, Browser, hidden_important, is_open, close_menu, close_any, document_keydown,
}

-- No link has an explicit `tabIndex`.
abbrev pub NoStops : List (Option ℤ) → Type 0
NoStops ts = All (λ (t : Option ℤ). t ≡ none) ts

NoStops-map : (ts : List (Option ℤ)) → NoStops (map (λ _. none) ts)
NoStops-map [] = tt
NoStops-map (_ ∷ ts) = (refl, NoStops-map ts)

-- Nothing of the open panel is left.
pub record IsClosed (p : Panel) : Type 0 where
  pub unmarked : p.marked ≡ false
  pub invisible : p.display ≡ hidden_important
  pub collapsed : p.menu.expanded ≡ false
  pub stopless : NoStops p.menu.tabs

pub close_menu-IsClosed : (b : Browser) (p : Panel) → IsClosed (close_menu b p)
unfolding close_menu
close_menu-IsClosed b p = record {
  unmarked = refl;
  invisible = refl;
  collapsed = refl;
  stopless = NoStops-map _;
}

-- Escape closes a panel that is marked open or visible: nothing of the open panel is left, the event
-- is stopped, and the panel is no longer open.
pub document_keydown-escape :
    (b : Browser) (p : Panel)
    → (p.marked || b.is_shown p) ≡ true
    → IsClosed (document_keydown b "Escape" p).0
      × ((document_keydown b "Escape" p).1 ≡ true)
      × (is_open b (document_keydown b "Escape" p).0 ≡ false)
unfolding document_keydown close_any is_open
document_keydown-escape b p h =
    rw h (close_menu-IsClosed b p, refl, ground (arith, close_menu-IsClosed b p))
