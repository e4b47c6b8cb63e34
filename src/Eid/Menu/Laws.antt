-- ===== src/Eid/Menu/Laws.antt =====
-- Where the focus goes, and that exactly one link is in the tab order.
use native.Mathlib.Nat.{add-zero}
use satosa_saml2spid.Base.{
  Bool-cases, ◌∙◌, ◌⊎◌, inl, inr, String, ℕ, zero, suc, ◌+◌, ◌-◌, ◌≤◌, ◌<◌, ◌≡◌, refl, ap, ℤ, pos,
  negsuc, ◌+ℤ◌, Bool, true, false, ◌||◌, Option, some, List, ◌==◌, eqb, if◌then◌else◌, get_elem?,
  arith, eq_iff,
}
use satosa_saml2spid.Eid.Menu.{
  Focus, link, trigger, elsewhere, Menu, safe_index, roving, focus_link, is_next, is_prev, before,
  handle_arrow,
}

-- Whatever the index, the link exists.
pub safe_index-lt : (z : ℤ) (n : ℕ) → 0 < n → safe_index z n < n
unfolding safe_index
safe_index-lt z n h = grind arith

-- An index in range stands for itself, the one past the end for the first link, and -1 for the last.
pub safe_index_in_range : (i n : ℕ) → i < n → safe_index (pos i) n ≡ i
unfolding safe_index
safe_index_in_range i n h = grind arith

pub safe_index_end : (n : ℕ) → 0 < n → safe_index (pos n) n ≡ 0
unfolding safe_index
safe_index_end n h = grind arith

pub safe_index_neg : (i n : ℕ) → i < n → safe_index (negsuc i) n ≡ n - suc i
unfolding safe_index
safe_index_neg i n h = grind arith

-- Where a key takes the focus among the links 0, …, `last`: round the ring from a link, and to an end
-- of the list from anywhere else.
abbrev pub destination : ℕ → String → Focus → ℕ
destination last key (link i) =
    if is_next key
    then (if eqb i last then 0 else i + 1)
    else if is_prev key
    then (if eqb i 0 then last else i - 1)
    else if key == "Home"
    then 0
    else last
destination last key _ =
    if is_next key then 0 else if is_prev key then last else if key == "Home" then 0 else last

abbrev pub is_navigation : String → Bool
is_navigation key = is_next key || is_prev key || (key == "Home") || (key == "End")

-- A focused link is one of the menu's.
abbrev pub IsInside : ℕ → Focus → Type 0
IsInside last (link i) = i ≤ last
IsInside last trigger = Unit
IsInside last elsewhere = Unit

-- The menu with its focus and its one tab stop at a link.
abbrev pub at_link : ℕ → ℕ → Menu → Menu
at_link last at m = record m { tabs = roving (suc last) 0 at; focus = link at }

focus_link_at :
    (last : ℕ) (z : ℤ) (at : ℕ) (m : Menu)
    → safe_index z (suc last) ≡ at
    → focus_link (suc last) z m ≡ at_link last at m
unfolding focus_link
focus_link_at last z at m h = rw h

next_index :
    (last i : ℕ)
    → i ≤ last
    → safe_index (pos i +ℤ pos 1) (suc last) ≡ (if eqb i last then 0 else i + 1)
unfolding safe_index
next_index last i h = grind arith

prev_index :
    (last i : ℕ)
    → i ≤ last
    → safe_index (before last (pos i)) (suc last) ≡ (if eqb i 0 then last else i - 1)
unfolding before
prev_index last zero h = safe_index_in_range last (suc last) (omega arith)
prev_index last (suc i) h = rw (safe_index_in_range i (suc last) (omega arith)) (ground arith)

pub focus_link_in_range :
    (last i : ℕ) (m : Menu) → i ≤ last → focus_link (suc last) (pos i) m ≡ at_link last i m
focus_link_in_range last i m h =
    focus_link_at last (pos i) i m (safe_index_in_range i (suc last) (omega arith))

handle_arrow_link :
    (last : ℕ) (key : String) (i : ℕ) (tabs : List (Option ℤ)) (x : Bool)
    → i ≤ last
    → is_navigation key ≡ true
    → let m : Menu = record { tabs = tabs; focus = link i; expanded = x } in
      handle_arrow (suc last) key m ≡ (at_link last (destination last key (link i)) m, true)
unfolding handle_arrow
handle_arrow_link last key i tabs x h nav =
    let m : Menu = record { tabs = tabs; focus = link i; expanded = x } in
    ground (
      arith,
      focus_link_at last (pos i +ℤ pos 1) _ m (next_index last i h),
      focus_link_at last (before last (pos i)) _ m (prev_index last i h),
      focus_link_in_range last 0 m (omega arith),
      focus_link_in_range last last m (omega arith),
    )

-- A key that goes forward is none of those that stand on the first link.
next_only : (key : String) → is_next key ≡ true → (is_prev key || (key == "End")) ≡ false
next_only key h = elim (Bool-cases (key == "ArrowDown")) [
  | inl e ↦ rw ((eq_iff key "ArrowDown").0 e) refl
  | inr n ↦ rw ((eq_iff key "ArrowRight").0 (ground arith)) refl
]

-- Off the links, a step forward goes to the first link and a step back to the last.
handle_arrow_trigger :
    (last : ℕ) (key : String) (tabs : List (Option ℤ)) (x : Bool)
    → is_navigation key ≡ true
    → let m : Menu = record { tabs = tabs; focus = trigger; expanded = x } in
      handle_arrow (suc last) key m ≡ (at_link last (destination last key trigger) m, true)
unfolding handle_arrow before
handle_arrow_trigger last key tabs x nav =
    let m : Menu = record { tabs = tabs; focus = trigger; expanded = x } in
    ground (
      arith,
      next_only key,
      focus_link_in_range last 0 m (omega arith),
      focus_link_in_range last last m (omega arith),
    )

handle_arrow_elsewhere :
    (last : ℕ) (key : String) (tabs : List (Option ℤ)) (x : Bool)
    → is_navigation key ≡ true
    → let m : Menu = record { tabs = tabs; focus = elsewhere; expanded = x } in
      handle_arrow (suc last) key m ≡ (at_link last (destination last key elsewhere) m, true)
unfolding handle_arrow before
handle_arrow_elsewhere last key tabs x nav =
    let m : Menu = record { tabs = tabs; focus = elsewhere; expanded = x } in
    ground (
      arith,
      focus_link_in_range last 0 m (omega arith),
      focus_link_in_range last last m (omega arith),
    )

-- A navigation key is taken, and moves the focus and the one tab stop of the menu round the ring of
-- its links: forward past the last link is the first, back from the first is the last, and from
-- outside the links a step goes to the end that it starts from.
pub handle_arrow_lem :
    (last : ℕ) (key : String) (m : Menu)
    → IsInside last m.focus
    → is_navigation key ≡ true
    → handle_arrow (suc last) key m ≡ (at_link last (destination last key m.focus) m, true)
handle_arrow_lem last key m = by_focus m.focus
  where
    by_focus :
        (f : Focus)
        → IsInside last f
        → is_navigation key ≡ true
        → handle_arrow (suc last) key (record m { focus = f })
          ≡ (at_link last (destination last key f) m, true)
    by_focus (link i) inside nav = handle_arrow_link last key i m.tabs m.expanded inside nav
    by_focus trigger inside nav = handle_arrow_trigger last key m.tabs m.expanded nav
    by_focus elsewhere inside nav = handle_arrow_elsewhere last key m.tabs m.expanded nav

-- Any other key is left to the browser, and so is every key in a menu with no link.
pub handle_arrow_other :
    (n : ℕ) (key : String) (m : Menu)
    → (n ≡ 0) ⊎ (is_navigation key ≡ false)
    → handle_arrow n key m ≡ (m, false)
unfolding handle_arrow
handle_arrow_other zero key m h = refl
handle_arrow_other (suc n) key m h = ground arith

get_elem?-roving :
    (n from active i : ℕ)
    → i < n
    → get_elem? (roving n from active) i
      ≡ some (if eqb (from + i) active then some (pos 0) else some (negsuc 0))
unfolding roving
get_elem?-roving zero from active i h = absurd (omega arith)
get_elem?-roving (suc n) from active zero h = rw add-zero refl
get_elem?-roving (suc n) from active (suc i) h =
    rw (get_elem?-roving n (suc from) active i (omega arith)) (ground arith)

-- After a jump to any index, positive or negative, one link of the menu is focused, it is the only one
-- in the tab order, and every link keeps an explicit `tabIndex`.
pub focus_link-roving :
    (last : ℕ) (z : ℤ) (m : Menu) (i : ℕ)
    → i ≤ last
    → let at = safe_index z (suc last) in
      (at ≤ last)
      × ((focus_link (suc last) z m).focus ≡ link at)
      × (get_elem? (focus_link (suc last) z m).tabs i
          ≡ some (if eqb i at then some (pos 0) else some (negsuc 0)))
focus_link-roving last z m i h =
    let at = safe_index z (suc last) in
    let e = focus_link_at last z at m refl in
    (
      omega (arith, safe_index-lt z (suc last)),
      ap (λ (m' : Menu). m'.focus) e,
      ap (λ (m' : Menu). get_elem? m'.tabs i) e
          ∙ get_elem?-roving (suc last) 0 at i (omega arith)
          ∙ ground arith,
    )
