-- ===== src/Eid/Dropdown.antt =====
-- The menu of the merged CIE card (`createLogoButton`), and the toggle of the "learn more" panel.
-- Each listener is a step of a small state; `requestAnimationFrame` leaves a step for a later frame.
pub mod Laws
pub mod Expand
use satosa_saml2spid.Base.{
  String, ℕ, zero, suc, Bool, true, false, not, ◌&&◌, ◌||◌, List, [], ◌∷◌, ◌++◌, ◌==◌,
  if◌then◌else◌,
}

-- `shown` is the class `is-open` of the menu and `expanded` the `aria-expanded` of the button. The
-- two document listeners are added and removed together. `pending` holds, for each opening, the
-- animation frames that are left before it adds them.
pub record Cie : Type 0 where
  pub shown : Bool
  pub expanded : Bool
  pub listening : Bool
  pub pending : List ℕ
  pub button_focused : Bool

abbrev pub new : Cie
new = record {
  shown = false;
  expanded = false;
  listening = false;
  pending = [];
  button_focused = false;
}

unfoldable pub close_menu : Cie → Cie
close_menu s = record s { shown = false; expanded = false; listening = false }

unfoldable pub toggle_menu : Cie → Cie
unfolding close_menu
toggle_menu s =
    if s.shown
    then close_menu s
    else record s { shown = true; expanded = true; pending = s.pending ++ (2 ∷ []) }

-- The frames that are left after one more frame, and whether one of them was the last.
unfoldable pub tick : List ℕ → List ℕ × Bool
tick [] = ([], false)
tick (zero ∷ ns) = let (rest, due) = tick ns in (rest, true)
tick (suc zero ∷ ns) = let (rest, due) = tick ns in (rest, true)
tick (suc (suc n) ∷ ns) = let (rest, due) = tick ns in (suc n ∷ rest, due)

-- What can happen: a click or a key on the button, a frame, a click outside the card, a key
-- anywhere in the document.
pub data Event : Type 0 where
  click : Event
  button_key : String → Event
  frame : Event
  outside_click : Event
  document_key : String → Event

unfoldable pub step : Cie → Event → Cie
unfolding close_menu toggle_menu tick
step s click = toggle_menu s
step s (button_key key) =
    if (key == "Enter") || (key == " ")
    then toggle_menu s
    else if key == "Escape"
    then close_menu s
    else s
step s frame =
    let (rest, due) = tick s.pending in record s { pending = rest; listening = due || s.listening }
step s outside_click = if s.listening then close_menu s else s
step s (document_key key) =
    if s.listening && (key == "Escape") then record (close_menu s) { button_focused = true } else s

unfoldable pub run : Cie → List Event → Cie
run s [] = s
run s (e ∷ es) = run (step s e) es

-- `syncLearnMoreToggleA11y`: the attributes and classes of the toggle and of its panel.
pub record LearnMore : Type 0 where
  pub aria_expanded : String
  pub aria_labelledby : String
  pub toggle_expanded : Bool
  pub panel_open : Bool
  pub panel_hidden : Bool

unfoldable pub sync_learn_more : String → Bool → LearnMore → LearnMore
sync_learn_more labelledby is_expanded s = record {
  aria_expanded = if is_expanded then "true" else "false";
  aria_labelledby = labelledby;
  toggle_expanded = is_expanded;
  panel_open = is_expanded;
  panel_hidden = not is_expanded;
}

-- The `click` listener of the toggle.
unfoldable pub toggle_click : String → LearnMore → LearnMore
unfolding sync_learn_more
toggle_click labelledby s = sync_learn_more labelledby (not (s.aria_expanded == "true")) s
