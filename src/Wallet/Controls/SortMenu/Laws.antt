-- ===== src/Wallet/Controls/SortMenu/Laws.antt =====
-- The menu is either closed with no item in the tab order, or open with the focused item as the one
-- tab stop.
use native.Mathlib.Nat.{mod-add-mod}
use satosa_saml2spid.Base.{
  ◌∷◌, Bool-cases, inl, inr, ℕ, zero, suc, ◌+◌, ◌%◌, ◌≤◌, ◌<◌, ◌↔◌, String, ◌≡◌, refl, ap, ◌∙◌, ℤ,
  pos, negsuc, ◌+ℤ◌, Bool, true, false, not, ◌&&◌, ◌||◌, some, ◌==◌, eqb, if◌then◌else◌, arith,
}
use satosa_saml2spid.Eid.Menu.{link, safe_index, roving}
use satosa_saml2spid.Eid.Menu.Laws.{safe_index-lt}
use satosa_saml2spid.Wallet.Controls.SortMenu.{
  SortMenu, no_tabs, close_sort_menu, get_active_sort_menu_index, focus_sort_menu_item,
  open_sort_menu, trigger_click, trigger_keydown, base_index, menu_keydown, item_click, load_menu,
  reloaded, listeners, Event, clicked_trigger, dismissed, pressed_on_trigger, pressed_on_menu,
  clicked_item, step,
}

-- Shut, or open at an item.
pub data IsTidy (n : ℕ) (m : SortMenu) : Type 0 where
  shut : m.hidden ≡ true → m.expanded ≡ false → m.tabs ≡ no_tabs n → IsTidy n m
  open_at :
      (at : ℕ) → at < n → m.hidden ≡ false → m.expanded ≡ true → m.tabs ≡ roving n 0 at → IsTidy n m

if-IsTidy :
    (n : ℕ) (b : Bool) (x y : SortMenu) → IsTidy n x → IsTidy n y → IsTidy n (if b then x else y)
if-IsTidy n true x y s t = s
if-IsTidy n false x y s t = t

close-IsTidy : (n : ℕ) (b : Bool) (m : SortMenu) → IsTidy n m → IsTidy n (close_sort_menu n b m)
unfolding close_sort_menu
close-IsTidy n b m t = if-IsTidy n (not m.is_there) _ _ t (shut refl refl refl)

focus-IsTidy :
    (n : ℕ) (z : ℤ) (m : SortMenu)
    → 0 < n
    → m.hidden ≡ false
    → m.expanded ≡ true
    → IsTidy n (focus_sort_menu_item n z m)
unfolding focus_sort_menu_item
focus-IsTidy zero z m p h e = elim (absurd p) [ ]
  where
    absurd : 0 < 0 → ⊥
    absurd p = omega arith
focus-IsTidy (suc k) z m p h e = open_at (safe_index z (suc k)) (safe_index-lt z (suc k) p) h e refl

open-IsTidy : (n : ℕ) (z : ℤ) (m : SortMenu) → 0 < n → IsTidy n m → IsTidy n (open_sort_menu n z m)
unfolding open_sort_menu
open-IsTidy n z m p t = if-IsTidy n (not m.is_there) _ _ t (focus-IsTidy n z _ p refl refl)

-- An open menu says so.
expanded_open : (n : ℕ) (m : SortMenu) → IsTidy n m → m.hidden ≡ false → m.expanded ≡ true
expanded_open n m (shut h e t) f = cc
expanded_open n m (open_at _ l h e t) f = e

click-IsTidy : (n : ℕ) (m : SortMenu) → 0 < n → IsTidy n m → IsTidy n (trigger_click n m)
unfolding trigger_click
click-IsTidy n m p t = if-IsTidy n m.hidden _ _ (open-IsTidy n _ m p t) (close-IsTidy n true m t)

trigger_keydown-IsTidy :
    (n : ℕ) (key : String) (m : SortMenu) → 0 < n → IsTidy n m → IsTidy n (trigger_keydown n key m)
unfolding trigger_keydown
trigger_keydown-IsTidy n key m p t =
    if-IsTidy n (not m.is_there) _ _ t
      (by_tests (key == "ArrowDown") (key == "ArrowUp") m.hidden refl)
  where
    by_tests :
        (down up h : Bool)
        → m.hidden ≡ h
        → IsTidy n (
            if down
            then (if h
                then open_sort_menu n (get_active_sort_menu_index m) m
                else focus_sort_menu_item n (get_active_sort_menu_index m +ℤ pos 1) m)
            else if up && h
            then open_sort_menu n (pos n +ℤ negsuc 0) m
            else m)
    by_tests true up true h = open-IsTidy n _ m p t
    by_tests true up false h = focus-IsTidy n _ m p h (expanded_open n m t h)
    by_tests false true true h = open-IsTidy n _ m p t
    by_tests false true false h = t
    by_tests false false true h = t
    by_tests false false false h = t

menu_keydown-IsTidy :
    (n : ℕ) (key : String) (m : SortMenu) → 0 < n → IsTidy n m → IsTidy n (menu_keydown n key m)
unfolding menu_keydown
menu_keydown-IsTidy n key m p t = if-IsTidy n (not m.is_there) _ _ t (
    by_tests m.hidden (eqb n 0) (key == "ArrowDown") (key == "ArrowUp") (key == "Home")
      (key == "End") refl)
  where
    moved : (z : ℤ) → m.hidden ≡ false → IsTidy n (focus_sort_menu_item n z m)
    moved z h = focus-IsTidy n z m p h (expanded_open n m t h)

    by_tests :
        (h none_there down up home end : Bool)
        → m.hidden ≡ h
        → IsTidy n (
            if h || none_there
            then m
            else if down
            then focus_sort_menu_item n (base_index n m +ℤ pos 1) m
            else if up
            then focus_sort_menu_item n (base_index n m +ℤ negsuc 0) m
            else if home
            then focus_sort_menu_item n (pos 0) m
            else if end
            then focus_sort_menu_item n (pos n +ℤ negsuc 0) m
            else m)
    by_tests true _ _ _ _ _ h = t
    by_tests false true _ _ _ _ h = t
    by_tests false false true _ _ _ h = moved _ h
    by_tests false false false true _ _ h = moved _ h
    by_tests false false false false true _ h = moved _ h
    by_tests false false false false false true h = moved _ h
    by_tests false false false false false false h = t

listeners-IsTidy :
    (loads n : ℕ) (f : SortMenu → SortMenu) (m : SortMenu)
    → ((x : SortMenu) → IsTidy n x → IsTidy n (f x))
    → IsTidy n m
    → IsTidy n (listeners loads f m)
unfolding listeners
listeners-IsTidy zero n f m k t = t
listeners-IsTidy (suc loads) n f m k t = listeners-IsTidy loads n f (f m) k (k m t)

item_click-IsTidy :
    (n i : ℕ) (is_drawn : Bool) (m : SortMenu) → IsTidy n m → IsTidy n (item_click n i is_drawn m)
unfolding item_click
item_click-IsTidy n i is_drawn m t =
    let chosen = record m { active = if not m.has_select then m.active else some i } in
    if-IsTidy n (m.has_select && not is_drawn) chosen _ (marked t)
      (close-IsTidy n true chosen (marked t))
  where
    marked :
        IsTidy n m → IsTidy n (record m { active = if not m.has_select then m.active else some i })
    marked (shut h e t) = shut h e t
    marked (open_at at l h e t) = open_at at l h e t

-- The tab order of an open menu is not that of a closed one.
no_tabs_ne_roving :
    (n z active : ℕ) → z ≤ active → active < z + n → no_tabs n ≡ roving n z active → ⊥
unfolding no_tabs roving
no_tabs_ne_roving zero z active h l e = omega arith
no_tabs_ne_roving (suc n) z active h l e = elim (Bool-cases (eqb z active)) [
  | inl y ↦ first y e
  | inr m ↦ no_tabs_ne_roving n (suc z) active (ground arith) (omega arith) (rest e)
]
  where
    first : eqb z active ≡ true → no_tabs (suc n) ≡ roving (suc n) z active → ⊥
    first y e =
        let e' : no_tabs (suc n) ≡ some (pos 0) ∷ roving n (suc z) active = e ∙ rw y refl in cc

    rest : no_tabs (suc n) ≡ roving (suc n) z active → no_tabs n ≡ roving n (suc z) active
    rest e = cc

-- Not a load that finds the menu open.
abbrev pub IsQuiet : Event → SortMenu → Type 0
IsQuiet reloaded m = m.hidden ≡ true
IsQuiet clicked_trigger m = Unit
IsQuiet dismissed m = Unit
IsQuiet (pressed_on_trigger key) m = Unit
IsQuiet (pressed_on_menu key) m = Unit
IsQuiet (clicked_item i is_drawn) m = Unit

-- With an item at least, a menu that is either closed with `aria-expanded="false"` and no item in the tab
-- order, or open with `aria-expanded="true"` and exactly one item in the tab order, is so after an event
-- exactly when that is not a load that finds the menu open, however many loads have added their listeners.
pub step-IsTidy :
    (loads n : ℕ) (e : Event) (m : SortMenu)
    → 0 < n
    → IsTidy n m
    → IsTidy n (step loads n e m) ↔ IsQuiet e m
unfolding step
step-IsTidy loads n clicked_trigger m p t = (λ _. tt, λ _. click-IsTidy n m p t)
step-IsTidy loads n dismissed m p t =
    (λ _. tt, λ _. if-IsTidy n m.hidden _ _ t (close-IsTidy n true m t))
step-IsTidy loads n (pressed_on_trigger key) m p t =
    (λ _. tt, λ _. listeners-IsTidy loads n _ m (λ x. trigger_keydown-IsTidy n key x p) t)
step-IsTidy loads n (pressed_on_menu key) m p t =
    (λ _. tt, λ _. listeners-IsTidy loads n _ m (λ x. menu_keydown-IsTidy n key x p) t)
step-IsTidy loads n (clicked_item i is_drawn) m p t =
    (λ _. tt, λ _. listeners-IsTidy loads n _ m (item_click-IsTidy n i is_drawn) t)
step-IsTidy loads n reloaded m p t = (found, λ h. loaded t h)
  where
    found : IsTidy n (load_menu n m) → m.hidden ≡ true
    found (shut h e t) = h
    found (open_at at l h e t) = elim (no_tabs_ne_roving n 0 at (omega arith) (omega arith) t) [ ]

    loaded : IsTidy n m → m.hidden ≡ true → IsTidy n (load_menu n m)
    loaded (shut h e t) y = shut h e refl
    loaded (open_at at l h e t) y = cc

arrow_down :
    (last i : ℕ) (m : SortMenu)
    → m.is_there ≡ true
    → m.hidden ≡ false
    → m.focus ≡ link i
    → i ≤ last
    → menu_keydown (suc last) "ArrowDown" m ≡ focus_sort_menu_item (suc last) (pos i +ℤ pos 1) m
unfolding menu_keydown base_index
arrow_down last i m y h f le = rw (y, h, f) (ground arith)

next : (last i : ℕ) → i ≤ last → safe_index (pos i +ℤ pos 1) (suc last) ≡ (i + 1) % suc last
unfolding safe_index
next last i le = grind arith

small : (last i : ℕ) → i ≤ last → i % suc last ≡ i
small last i le = grind arith

pass : (last i loads : ℕ) → ((i + 1) % suc last + loads) % suc last ≡ (i + suc loads) % suc last
pass last i loads = mod-add-mod (i + 1) (suc last) loads ∙ ap (λ x. x % suc last) (omega arith)

inside : (last i : ℕ) → i % suc last ≤ last
inside last i = grind arith

-- With the menu there and open, and the focus on item `i` of `last + 1`, one press of the arrow down moves
-- the focus as many items on, round the list, as loads have added their listeners, so one item only before
-- the language is changed.
pub arrow_down_lem :
    (loads last i : ℕ) (m : SortMenu)
    → m.is_there ≡ true
    → m.hidden ≡ false
    → m.focus ≡ link i
    → i ≤ last
    → (step loads (suc last) (pressed_on_menu "ArrowDown") m).focus ≡ link ((i + loads) % suc last)
unfolding step listeners focus_sort_menu_item
arrow_down_lem zero last i m y h f le = f ∙ ap link (ground (arith, small last i le))
arrow_down_lem (suc loads) last i m y h f le =
    let moved = focus_sort_menu_item (suc last) (pos i +ℤ pos 1) m in
    ap (λ x. (listeners loads (menu_keydown (suc last) "ArrowDown") x).focus)
      (arrow_down last i m y h f le)
    ∙ arrow_down_lem loads last ((i + 1) % suc last) moved y h (ap link (next last i le))
        (inside last (i + 1))
    ∙ ap link (pass last i loads)
