-- ===== src/Wallet/Controls/SortMenu.antt =====
-- The menu of sort orders, over its `n` items. The list of items and the menu stay on the page when
-- the language changes, and each load adds its listeners to those that are there.
pub mod Laws
use satosa_saml2spid.Base.{
  ℕ, zero, suc, String, ℤ, pos, negsuc, ◌+ℤ◌, Bool, true, false, not, ◌&&◌, ◌||◌, Option, none,
  some, List, [], ◌∷◌, ◌==◌, eqb, ltb, if◌then◌else◌,
}
use satosa_saml2spid.Eid.Menu.{Focus, link, trigger, elsewhere, safe_index, roving}

-- `is_there` is whether the page has the menu and its trigger, `has_select` whether it has the select;
-- `active` is the first item with the class `is-active`; `tabs` are the items' `tabIndex`.
pub record SortMenu : Type 0 where
  pub is_there : Bool
  pub has_select : Bool
  pub hidden : Bool
  pub expanded : Bool
  pub tabs : List (Option ℤ)
  pub focus : Focus
  pub active : Option ℕ

unfoldable pub no_tabs : ℕ → List (Option ℤ)
no_tabs zero = []
no_tabs (suc n) = some (negsuc 0) ∷ no_tabs n

-- `closeSortMenu`. The frame that restores the focus is taken at once.
unfoldable pub close_sort_menu : ℕ → Bool → SortMenu → SortMenu
unfolding no_tabs
close_sort_menu n restore_focus m = if not m.is_there then m else record m {
  hidden = true;
  expanded = false;
  tabs = no_tabs n;
  focus = if restore_focus then trigger else m.focus;
}

-- `getActiveSortMenuIndex`.
unfoldable pub get_active_sort_menu_index : SortMenu → ℤ
get_active_sort_menu_index m = elim m.active [ none ↦ pos 0 | some i ↦ pos i ]

-- `focusSortMenuItem`.
unfoldable pub focus_sort_menu_item : ℕ → ℤ → SortMenu → SortMenu
unfolding safe_index roving
focus_sort_menu_item zero index m = m
focus_sort_menu_item (suc k) index m =
    let normalized = safe_index index (suc k) in
    record m { tabs = roving (suc k) 0 normalized; focus = link normalized }

-- `openSortMenu`, which gets an index at each call.
unfoldable pub open_sort_menu : ℕ → ℤ → SortMenu → SortMenu
unfolding focus_sort_menu_item
open_sort_menu n index m =
    if not m.is_there
    then m
    else focus_sort_menu_item n index (record m { hidden = false; expanded = true })

-- `sortTrigger.onclick`.
unfoldable pub trigger_click : ℕ → SortMenu → SortMenu
unfolding open_sort_menu close_sort_menu get_active_sort_menu_index
trigger_click n m =
    if m.hidden then open_sort_menu n (get_active_sort_menu_index m) m else close_sort_menu n true m

-- The listener of `keydown` on the trigger, where both are there.
unfoldable pub trigger_keydown : ℕ → String → SortMenu → SortMenu
unfolding open_sort_menu focus_sort_menu_item get_active_sort_menu_index
trigger_keydown n key m =
    if not m.is_there
    then m
    else if key == "ArrowDown"
    then (if m.hidden
        then open_sort_menu n (get_active_sort_menu_index m) m
        else focus_sort_menu_item n (get_active_sort_menu_index m +ℤ pos 1) m)
    else if (key == "ArrowUp") && m.hidden
    then open_sort_menu n (pos n +ℤ negsuc 0) m
    else m

-- `sortMenuItems.findIndex((item) => item === document.activeElement)`, or the active item.
unfoldable pub base_index : ℕ → SortMenu → ℤ
unfolding get_active_sort_menu_index
base_index n m = elim m.focus [
  | link i ↦ if ltb i n then pos i else get_active_sort_menu_index m
  | trigger ↦ get_active_sort_menu_index m
  | elsewhere ↦ get_active_sort_menu_index m
]

-- The listener of `keydown` on the menu, where both are there, but for the keys that click the focused item.
unfoldable pub menu_keydown : ℕ → String → SortMenu → SortMenu
unfolding base_index focus_sort_menu_item
menu_keydown n key m =
    if not m.is_there
    then m
    else if m.hidden || eqb n 0
    then m
    else if key == "ArrowDown"
    then focus_sort_menu_item n (base_index n m +ℤ pos 1) m
    else if key == "ArrowUp"
    then focus_sort_menu_item n (base_index n m +ℤ negsuc 0) m
    else if key == "Home"
    then focus_sort_menu_item n (pos 0) m
    else if key == "End"
    then focus_sort_menu_item n (pos n +ℤ negsuc 0) m
    else m

-- A click on an item, or `Enter` or a space on the focused one: the item becomes the active one, as the
-- select takes its value. Where the cards cannot all be drawn, `setSortValue` throws, and the menu stays.
unfoldable pub item_click : ℕ → ℕ → Bool → SortMenu → SortMenu
unfolding close_sort_menu
item_click n i is_drawn m =
    let marked = record m { active = if not m.has_select then m.active else some i } in
    if m.has_select && not is_drawn then marked else close_sort_menu n true marked

-- A load takes the items out of the tab order, and leaves the menu as it is otherwise.
unfoldable pub load_menu : ℕ → SortMenu → SortMenu
unfolding no_tabs
load_menu n m = record m { tabs = no_tabs n }

-- `Escape` anywhere, and a click outside the menu and its trigger.
unfoldable pub dismiss : ℕ → SortMenu → SortMenu
unfolding close_sort_menu
dismiss n m = if m.hidden then m else close_sort_menu n true m

-- What the listeners of `loads` loads do with one key: each has its turn.
unfoldable pub listeners : ℕ → (SortMenu → SortMenu) → SortMenu → SortMenu
listeners zero f m = m
listeners (suc k) f m = listeners k f (f m)

pub data Event : Type 0 where
  clicked_trigger dismissed reloaded : Event
  pressed_on_trigger pressed_on_menu : String → Event
  clicked_item : (item : ℕ) (is_drawn : Bool) → Event

unfoldable pub step : ℕ → ℕ → Event → SortMenu → SortMenu
unfolding trigger_click trigger_keydown menu_keydown item_click load_menu dismiss listeners
step loads n clicked_trigger m = trigger_click n m
step loads n dismissed m = dismiss n m
step loads n (pressed_on_trigger key) m = listeners loads (trigger_keydown n key) m
step loads n (pressed_on_menu key) m = listeners loads (menu_keydown n key) m
step loads n (clicked_item i is_drawn) m = listeners loads (item_click n i is_drawn) m
step loads n reloaded m = load_menu n m
