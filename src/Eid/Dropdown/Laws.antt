-- ===== src/Eid/Dropdown/Laws.antt =====
-- The menu and its button agree; a menu that stays open is listened to; a menu that is closed before
-- its frames have passed is listened to as well.
use satosa_saml2spid.Base.{
  String, ◌≡◌, refl, Bool, true, false, not, List, [], ◌∷◌, ◌==◌, arith, Bool-cases, inl, inr, ◌⊎◌,
  ◌++◌, ◌∙◌, ap,
}
use satosa_saml2spid.Eid.Dropdown.{
  Cie, Event, click, button_key, frame, outside_click, document_key, step, run, tick, toggle_menu,
  close_menu, LearnMore, sync_learn_more, toggle_click,
}

-- What assistive technology is told is what is shown.
abbrev pub Agrees : Cie → Type 0
Agrees s = s.expanded ≡ s.shown

step-Agrees : (s : Cie) (e : Event) → Agrees s → Agrees (step s e)
unfolding step
step-Agrees s click h = ground arith
step-Agrees s (button_key key) h = ground arith
step-Agrees s frame h = h
step-Agrees s outside_click h = ground arith
step-Agrees s (document_key key) h = ground arith

-- Through every sequence of events `aria-expanded` says whether the menu is shown.
pub run-Agrees : (es : List Event) (s : Cie) → Agrees s → Agrees (run s es)
unfolding run
run-Agrees [] s h = h
run-Agrees (e ∷ es) s h = run-Agrees es (step s e) (step-Agrees s e h)

-- A menu that is opened with no frame pending listens for outside clicks and Escape two frames later,
-- and either of them closes it again; Escape gives the focus back to the button.
pub open_then_escape :
    (s : Cie)
    → s.shown ≡ false
    → s.pending ≡ []
    → let t = run s (click ∷ frame ∷ frame ∷ []) in
      (t.shown ≡ true)
      × (t.listening ≡ true)
      × ((step t outside_click).shown ≡ false)
      × ((step t (document_key "Escape")).shown ≡ false)
      × ((step t (document_key "Escape")).button_focused ≡ true)
unfolding run step
open_then_escape s h q = ground arith

-- What toggles the menu: a click, Enter and the space bar on the button; and what closes it when it is
-- shown, Escape on the button too.
pub data Toggles : Event → Type 0 where
  by_click : Toggles click
  by_enter : Toggles (button_key "Enter")
  by_space : Toggles (button_key " ")

pub data Closes : Event → Type 0 where
  by_toggle : {e : Event} → Toggles e → Closes e
  by_escape : Closes (button_key "Escape")

toggled : (s : Cie) (e : Event) → Toggles e → step s e ≡ toggle_menu s
unfolding step
toggled s _ by_click = refl
toggled s _ by_enter = refl
toggled s _ by_space = refl

closed : (s : Cie) (e : Event) → Closes e → s.shown ≡ true → step s e ≡ close_menu s
unfolding step toggle_menu
closed s _ (by_toggle t) h = toggled s _ t ∙ (rw h refl)
closed s _ by_escape h = refl

abbrev opened : Cie → Cie
opened s = record s { shown = true; expanded = true; pending = 2 ∷ [] }

opening-eq :
    (s : Cie) (e : Event) → Toggles e → s.shown ≡ false → s.pending ≡ [] → step s e ≡ opened s
unfolding toggle_menu
opening-eq s e t h q = toggled s e t ∙ (rw (h, q) refl)

close_menu-shown : (s : Cie) → (close_menu s).shown ≡ false
unfolding close_menu
close_menu-shown s = refl

close_menu-pending : (s : Cie) → (close_menu s).pending ≡ s.pending
unfolding close_menu
close_menu-pending s = refl

opened-frame : (s : Cie) → step (opened s) frame ≡ record (opened s) { pending = 1 ∷ [] }
unfolding step tick
opened-frame s = refl

-- A menu that is shut with an opening of its own still pending is listened to two frames later.
overtaken :
    (s : Cie)
    → s.shown ≡ false
    → (s.pending ≡ 1 ∷ []) ⊎ (s.pending ≡ 2 ∷ [])
    → let t = run s (frame ∷ frame ∷ []) in
      (t.shown ≡ false)
      × (t.listening ≡ true)
      × ((step t (document_key "Escape")).button_focused ≡ true)
unfolding run step tick
overtaken s h (inl q) = rw (h, q) (refl, refl, refl)
overtaken s h (inr q) = rw (h, q) (refl, refl, refl)

-- The frames between the opening and the closing: none, or one.
abbrev pub waited : Bool → List Event
waited true = frame ∷ []
waited false = []

-- A menu that is opened with no frame pending and closed again before the second frame, each by a click or
-- a key on its button, is closed after two more frames, and yet listened to: a later Escape anywhere moves
-- the focus to its button.
pub stale_listener :
    (s : Cie) (opening closing : Event) (one_frame : Bool)
    → Toggles opening
    → Closes closing
    → s.shown ≡ false
    → s.pending ≡ []
    → let t = run s (opening ∷ (waited one_frame ++ (closing ∷ frame ∷ frame ∷ []))) in
      (t.shown ≡ false)
      × (t.listening ≡ true)
      × ((step t (document_key "Escape")).button_focused ≡ true)
unfolding run
stale_listener s o c false t k h q =
    let e : step (step s o) c ≡ close_menu (opened s) =
      ap (λ u. step u c) (opening-eq s o t h q) ∙ closed (opened s) c k refl in
    overtaken (step (step s o) c) (ap (λ (u : Cie). u.shown) e ∙ close_menu-shown (opened s))
      (inr (ap (λ (u : Cie). u.pending) e ∙ close_menu-pending (opened s)))
stale_listener s o c true t k h q =
    let u = record (opened s) { pending = 1 ∷ [] } in
    let e : step (step (step s o) frame) c ≡ close_menu u =
      ap (λ v. step (step v frame) c) (opening-eq s o t h q)
      ∙ ap (λ v. step v c) (opened-frame s)
      ∙ closed u c k refl in
    overtaken (step (step (step s o) frame) c) (ap (λ (v : Cie). v.shown) e ∙ close_menu-shown u)
      (inl (ap (λ (v : Cie). v.pending) e ∙ close_menu-pending u))

-- After a click the toggle and the panel say the same, and the opposite of what the toggle said.
pub toggle_click_lem :
    (labelledby : String) (s : LearnMore)
    → let open_now = not (s.aria_expanded == "true") in
      let t = toggle_click labelledby s in
      ((t.aria_expanded == "true") ≡ open_now)
      × (t.toggle_expanded ≡ open_now)
      × (t.panel_open ≡ open_now)
      × (t.panel_hidden ≡ not open_now)
unfolding toggle_click
toggle_click_lem labelledby s = elim (Bool-cases (s.aria_expanded == "true")) [
  | inl e ↦ rw e (refl, refl, refl, refl)
  | inr n ↦ rw n (refl, refl, refl, refl)
]

-- Two clicks give back a panel that was in step.
pub toggle_click_twice :
    (labelledby : String) (s : LearnMore) (is_expanded : Bool)
    → toggle_click labelledby (toggle_click labelledby (sync_learn_more labelledby is_expanded s))
      ≡ sync_learn_more labelledby is_expanded s
unfolding toggle_click
toggle_click_twice labelledby s true = refl
toggle_click_twice labelledby s false = refl
