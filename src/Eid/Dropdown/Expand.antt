-- ===== src/Eid/Dropdown/Expand.antt =====
-- The toggle of the "learn more" panel with the frame that it asks for, in which `focusLearnMorePanel`
-- moves the focus into the panel.
use satosa_saml2spid.Base.{
  ℕ, zero, suc, String, ◌≡◌, ◌≢◌, refl, Bool, true, false, not, Option, none, some, ◌==◌, List, [],
  ◌∷◌, if◌then◌else◌, arith, Bool-cases, inl, inr,
}
use satosa_saml2spid.Eid.Dropdown.{LearnMore, toggle_click}

-- Where the focus is: on the toggle, on the first link or button of the panel, or on the panel.
pub data Focus : Type 0 where
  on_toggle on_first on_panel : Focus

-- The toggle and its panel, the `tabindex` of the panel, whether the panel has a link or a button that
-- is not disabled, and the frames that are asked for.
pub record Expander : Type 0 where
  pub state : LearnMore
  pub tabindex : Option String
  pub has_focusable : Bool
  pub frames : ℕ
  pub focus : Focus

-- `focusLearnMorePanel`. The browser moves no focus into what is hidden.
unfoldable pub focus_learn_more_panel : Expander → Expander
focus_learn_more_panel s =
    let at = (if s.has_focusable then on_first else on_panel) in
    record s {
      tabindex =
          if s.has_focusable
          then s.tabindex
          else elim s.tabindex [ none ↦ some "-1" | some t ↦ some t ];
      focus = if s.state.panel_hidden then s.focus else at;
    }

-- The `click` listener: an expansion asks for a frame.
unfoldable pub click : String → Expander → Expander
unfolding toggle_click
click labelledby s =
    let next = toggle_click labelledby s.state in
    record s {
      state = next;
      frames = if s.state.aria_expanded == "true" then s.frames else suc s.frames;
    }

-- One of the frames.
unfoldable pub frame : Expander → Expander
unfolding focus_learn_more_panel
frame s = elim s.frames [ zero ↦ s | suc n ↦ focus_learn_more_panel (record s { frames = n }) ]

pub data Event : Type 0 where
  clicked next_frame : Event

unfoldable pub run : String → List Event → Expander → Expander
unfolding click frame
run labelledby [] s = s
run labelledby (clicked ∷ es) s = run labelledby es (click labelledby s)
run labelledby (next_frame ∷ es) s = run labelledby es (frame s)

-- A place that the panel has, and that can take the focus.
abbrev Takes : Focus → Bool → Option String → Type 0
Takes on_toggle has_focusable tabindex = Unit
Takes on_first has_focusable tabindex = has_focusable ≡ true
Takes on_panel has_focusable tabindex = tabindex ≢ none

abbrev IsPlaced : Expander → Type 0
IsPlaced s = Takes s.focus s.has_focusable s.tabindex

-- The panel is hidden exactly where the toggle says so, and the focus is where it can be.
abbrev pub IsSound : Expander → Type 0
IsSound s = (s.state.panel_hidden ≡ not (s.state.aria_expanded == "true")) × IsPlaced s

focused-IsPlaced : (s : Expander) → IsPlaced s → IsPlaced (focus_learn_more_panel s)
unfolding focus_learn_more_panel
focused-IsPlaced s h = by_fields s.focus s.has_focusable s.tabindex s.state.panel_hidden h
  where
    by_fields :
        (f : Focus) (b : Bool) (t : Option String) (hidden : Bool)
        → let e = record s {
          focus = f;
          has_focusable = b;
          tabindex = t;
          state = record s.state { panel_hidden = hidden };
        } in
          IsPlaced e → IsPlaced (focus_learn_more_panel e)
    by_fields on_toggle true t true h = tt
    by_fields on_toggle true t false h = refl
    by_fields on_toggle false none true h = tt
    by_fields on_toggle false none false h = λ e. cc
    by_fields on_toggle false (some t) true h = tt
    by_fields on_toggle false (some t) false h = λ e. cc
    by_fields on_first true t hidden h = ground arith
    by_fields on_first false t hidden h = cc
    by_fields on_panel true t true h = h
    by_fields on_panel true t false h = refl
    by_fields on_panel false none hidden h = absurd (h refl)
    by_fields on_panel false (some t) true h = h
    by_fields on_panel false (some t) false h = h

click-IsSound : (labelledby : String) (s : Expander) → IsSound s → IsSound (click labelledby s)
unfolding click
click-IsSound labelledby s (h, k) = elim (Bool-cases (s.state.aria_expanded == "true")) [
  | inl y ↦ rw y (refl, k)
  | inr n ↦ rw n (refl, k)
]

frame-IsSound : (s : Expander) → IsSound s → IsSound (frame s)
unfolding frame
frame-IsSound s (h, k) = by_frames s.frames
  where
    by_frames :
        (n : ℕ)
        → IsSound (elim n [ zero ↦ s | suc m ↦ focus_learn_more_panel (record s { frames = m }) ])
    by_frames zero = (h, k)
    by_frames (suc n) = (h, focused-IsPlaced (record s { frames = n }) k)

-- Through any clicks and frames, also where a click comes before the frame of the one before, the panel
-- is hidden exactly where the toggle says that it is not expanded, and the focus is on the toggle, on a
-- link or button that the panel has, or on the panel with a `tabindex`.
pub run-IsSound :
    (labelledby : String) (es : List Event) (s : Expander)
    → IsSound s
    → IsSound (run labelledby es s)
unfolding run
run-IsSound labelledby [] s h = h
run-IsSound labelledby (clicked ∷ es) s h =
    run-IsSound labelledby es (click labelledby s) (click-IsSound labelledby s h)
run-IsSound labelledby (next_frame ∷ es) s h =
    run-IsSound labelledby es (frame s) (frame-IsSound s h)
