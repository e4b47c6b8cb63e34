-- ===== src/Eid/Menu/Wiring/Laws.antt =====
-- A click and a key on the trigger, and the count of the listeners.
use satosa_saml2spid.Base.{
  ℕ, zero, suc, ◌≡◌, refl, Bool, true, false, ◌||◌, none, if◌then◌else◌, arith, Bool-cases, inl,
  inr, subst, sym,
}
use satosa_saml2spid.Eid.Menu.{Menu}
use satosa_saml2spid.Eid.Menu.Panel.{Panel, Browser, cleared, close_any, document_keydown}
use satosa_saml2spid.Eid.Menu.Panel.Laws.{IsClosed, close_menu-IsClosed}
use satosa_saml2spid.Eid.Menu.Wiring.{
  Listeners, render_card, render_cards, click, plugin_click, key_on_trigger,
}

-- The listeners of one card, with the two of `keydown` on its trigger, and of the document.
abbrev pub IsBoundOnce : Bool → Listeners → Type 0
IsBoundOnce jquery w =
    (w.menu_keys ≡ 1)
    × (w.trigger_clicks ≡ 1)
    × (w.trigger_keys ≡ 2)
    × (w.shows ≡ (if jquery then 1 else 0))
    × (w.global_clicks ≡ 1)
    × (w.global_keys ≡ 1)

-- The document has its listeners exactly where the window is marked.
abbrev pub IsCounted : Listeners → Type 0
IsCounted w =
    (w.global_clicks ≡ (if w.global_bound then 1 else 0))
    × (w.global_keys ≡ (if w.global_bound then 1 else 0))

render_card_lem :
    (jquery : Bool) (w : Listeners)
    → IsCounted w
    → IsCounted (render_card jquery w) × IsBoundOnce jquery (render_card jquery w)
unfolding render_card
render_card_lem true w h = ground arith
render_card_lem false w h = ground arith

-- However often the cards are created, the menu that is in the page has one listener of `keydown`, its
-- trigger one of `click` and two of `keydown`, the document one of each kind, and the plugin's event one
-- where there is jQuery.
pub render_cards-IsBoundOnce :
    (jquery : Bool) (n : ℕ) (w : Listeners)
    → IsCounted w
    → IsBoundOnce jquery (render_cards jquery (suc n) w)
unfolding render_cards
render_cards-IsBoundOnce jquery zero w h = (render_card_lem jquery w h).1
render_cards-IsBoundOnce jquery (suc n) w h =
    render_cards-IsBoundOnce jquery n (render_card jquery w) (render_card_lem jquery w h).0

if-true {ℓ} : {A : Type ℓ} (c : Bool) (x y : A) → c ≡ true → (if c then x else y) ≡ x
if-true true x y e = refl
if-true false x y e = cc

module _ (b : Browser) (p : Panel) where
  -- Escape on the trigger closes the panel whether it is open or not, and asks for no frame.
  escape_on_trigger :
      IsClosed (key_on_trigger b "Escape" p).0 × ((key_on_trigger b "Escape" p).1 ≡ none)
  unfolding key_on_trigger document_keydown close_any
  escape_on_trigger = elim (Bool-cases (p.marked || b.is_shown p)) [
    | inl y ↦ rw y (close_menu-IsClosed b p, refl)
    | inr n ↦ rw n (close_menu-IsClosed b p, refl)
  ]

  -- A click on the trigger of a panel that is marked open closes it in every respect, without the
  -- plugin. So does Escape on the trigger, and it asks for no frame.
  pub close_from_trigger :
      p.marked ≡ true
      → IsClosed (click b p)
        × IsClosed (key_on_trigger b "Escape" p).0
        × ((key_on_trigger b "Escape" p).1 ≡ none)
  unfolding click
  close_from_trigger m = (
    subst (λ (c : Panel × Bool). IsClosed (plugin_click b c)) (sym (if-true p.marked _ _ m))
        (close_menu-IsClosed b (record p { display = cleared })),
    escape_on_trigger.0,
    escape_on_trigger.1,
  )
