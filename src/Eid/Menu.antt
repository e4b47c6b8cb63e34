-- ===== src/Eid/Menu.antt =====
-- Keyboard navigation in the menu of SPID providers: one link at a time is in the tab order.
-- The browser's list of visible links enters by its length, and the focus by the position of the
-- focused link. The jQuery plugin that shows and hides the panel is a parameter.
pub mod Laws
pub mod Panel
pub mod Wiring
use satosa_saml2spid.Base.{
  String, ℕ, zero, suc, ℤ, pos, negsuc, ◌+ℤ◌, rem, to_ℕ, Bool, true, false, ◌||◌, Option, some,
  List, [], ◌∷◌, ◌==◌, eqb, ltb, if◌then◌else◌,
}

-- `document.activeElement`, as the menu tells it apart.
pub data Focus : Type 0 where
  link : ℕ → Focus
  trigger elsewhere : Focus

-- What the navigation changes: the `tabIndex` of each link, the focus, and `aria-expanded`.
pub record Menu : Type 0 where
  pub tabs : List (Option ℤ)
  pub focus : Focus
  pub expanded : Bool

-- `((index % links.length) + links.length) % links.length`.
unfoldable pub safe_index : ℤ → ℕ → ℕ
safe_index index n = to_ℕ (rem (rem index n +ℤ pos n) n)

-- `applySpidMenuRovingTabindex`: one tab stop among `n` links, counted from `at`.
unfoldable pub roving : ℕ → ℕ → ℕ → List (Option ℤ)
roving zero at active = []
roving (suc n) at active =
    (if eqb at active then some (pos 0) else some (negsuc 0)) ∷ roving n (suc at) active

-- `focusSpidMenuLinkByIndex`.
unfoldable pub focus_link : ℕ → ℤ → Menu → Menu
unfolding safe_index roving
focus_link zero index m = m
focus_link (suc k) index m =
    let at = safe_index index (suc k) in record m { tabs = roving (suc k) 0 at; focus = link at }

-- `onSpidMenuOpened`.
unfoldable pub on_opened : ℕ → Bool → Menu → Menu
unfolding focus_link
on_opened zero focus_last m = m
on_opened (suc k) focus_last m =
    record (focus_link (suc k) (if focus_last then pos k else pos 0) m) { expanded = true }

-- `links.indexOf(document.activeElement)`.
unfoldable pub index_of : ℕ → Focus → ℤ
index_of n (link i) = if ltb i n then pos i else negsuc 0
index_of n trigger = negsuc 0
index_of n elsewhere = negsuc 0

abbrev pub is_next : String → Bool
is_next key = (key == "ArrowDown") || (key == "ArrowRight")

abbrev pub is_prev : String → Bool
is_prev key = (key == "ArrowUp") || (key == "ArrowLeft")

-- `currentIndex`, with the correction for the trigger.
unfoldable pub current_index : ℕ → String → Focus → ℤ
unfolding index_of
current_index n key (link i) = index_of n (link i)
current_index n key trigger = if is_prev key || (key == "End") then pos 0 else negsuc 0
current_index n key elsewhere = negsuc 0

-- `currentIndex <= 0 ? links.length - 1 : currentIndex - 1`.
unfoldable pub before : ℕ → ℤ → ℤ
before last (negsuc i) = pos last
before last (pos zero) = pos last
before last (pos (suc i)) = pos i

-- `handleSpidMenuArrowNavigation`: the menu, and whether the key was taken.
unfoldable pub handle_arrow : ℕ → String → Menu → Menu × Bool
unfolding current_index before
handle_arrow zero key m = (m, false)
handle_arrow (suc k) key m =
    let current = current_index (suc k) key m.focus in
    if is_next key
    then (focus_link (suc k) (current +ℤ pos 1) m, true)
    else if is_prev key
    then (focus_link (suc k) (before k current) m, true)
    else if key == "Home"
    then (focus_link (suc k) (pos 0) m, true)
    else if key == "End"
    then (focus_link (suc k) (pos k) m, true)
    else (m, false)
