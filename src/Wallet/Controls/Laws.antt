-- ===== src/Wallet/Controls/Laws.antt =====
-- The cards are those of the last search that was applied, and the controls say so.
use satosa_saml2spid.Base.{
  Option, some, none, text_or, ◌∙◌, ◌⊎◌, Bool, if◌then◌else◌, arith, ◌&&◌, ◌||◌, ◌==◌, not, eq_refl,
  ℕ, String, ℤ, ◌≡◌, refl, true, false, inl, inr, List, [], ◌∷◌, is_truthy, trim, Bool-cases,
}
use satosa_saml2spid.Eid.Bundle.{Bundle}
use satosa_saml2spid.Wallet.Order.{Wallet}
use satosa_saml2spid.Wallet.Controls.{
  Controls, Event, typed, submitted, cleared, selected, item_clicked, has_query, set_select,
  query_in, sort_in, set_sort_menu_selection, sync_search_button_state, set_search_applied_visual,
  clear_search_error, show_search_error, sorted_wallets, drawn_wallets, all_drawn,
  apply_filters_and_sort, step, run, start,
}

-- What a test leaves as it is, or changes.
guarded {ℓ} :
    (P : Controls → Type ℓ) (b : Bool) (c d : Controls)
    → (b ≡ false → P c)
    → (b ≡ true → P d)
    → P (if not b then c else d)
guarded P true c d h k = k refl
guarded P false c d h k = h refl

module _ (to_lower : String → String) (locale_compare : String → String → ℤ) (print : ℕ → String)
    (r : Bundle) (order : List Wallet) where
  -- The error shows with no query in the input only, and is also marked on it. What the page lacks neither
  -- shows nor is marked.
  abbrev pub IsMarked : Controls → Type 0
  IsMarked c =
      ((c.clear_shown && not c.parts.has_clear_button) ≡ false)
      × (((c.error_shown || c.aria_invalid) && has_query c) ≡ false)
      × ((c.error_shown && c.parts.has_input) ≡ (c.aria_invalid && c.parts.has_error))

  abbrev pub sorted : Controls → List Wallet
  sorted c = sorted_wallets to_lower locale_compare print r order c

  -- The grid has the wallets for the applied query and the sort value, up to the first without an address;
  -- and where each of them has one, the clear button shows with a query in the input only.
  abbrev pub IsInStep : Controls → Type 0
  IsInStep c =
      (c.shown ≡ drawn_wallets (sorted c))
      × ((all_drawn (sorted c) ≡ false)
          ⊎ (c.clear_shown ≡ (c.parts.has_clear_button && has_query c)))
      × IsMarked c

  -- The search button looks applied only while the input has the query that the cards are for.
  abbrev pub IsHonest : Controls → Type 0
  IsHonest c =
      (c.is_search_applied
        && not (c.parts.has_search_button && (c.applied_query == query_in c) && has_query c))
      ≡ false

  -- The rendering brings the grid in step, also where it ends with an exception.
  apply-IsInStep :
      (a : Option String) (c : Controls)
      → IsMarked c
      → IsInStep (apply_filters_and_sort to_lower locale_compare print r order a c)
  unfolding apply_filters_and_sort
  apply-IsInStep a c (k, i, j) = elim (Bool-cases (all_drawn (sorted c))) [
    | inl y ↦ rw y (refl, inr (ground arith), (ground arith, i, j))
    | inr n ↦ rw n (refl, inl n, (k, i, j))
  ]

  -- The rendering leaves what the search button goes by.
  pub apply-keeps :
      (a : Option String) (c : Controls)
      → let d = apply_filters_and_sort to_lower locale_compare print r order a c in
        (d.is_search_applied ≡ c.is_search_applied)
        × (d.applied_query ≡ c.applied_query)
        × (has_query d ≡ has_query c)
  unfolding apply_filters_and_sort
  apply-keeps a c = elim (Bool-cases (all_drawn (sorted c))) [
    | inl y ↦ rw y (refl, refl, refl)
    | inr n ↦ rw n (refl, refl, refl)
  ]

  apply-IsHonest :
      (a : Option String) (c : Controls)
      → IsHonest c
      → IsHonest (apply_filters_and_sort to_lower locale_compare print r order a c)
  unfolding apply_filters_and_sort
  apply-IsHonest a c h = elim (Bool-cases (all_drawn (sorted c))) [
    | inl y ↦ rw y h
    | inr n ↦ rw n h
  ]

  sync-IsMarked : (c : Controls) → IsMarked c → IsMarked (sync_search_button_state c)
  unfolding sync_search_button_state
  sync-IsMarked c (k, i, j) = elim (Bool-cases (has_query c)) [
    | inl t ↦ rw t (k, ground arith, ground arith)
    | inr t ↦ rw t (k, ground arith, ground arith)
  ]

  -- The controls of a search that is applied, before the rendering.
  abbrev searched : Controls → Controls
  searched c =
      set_search_applied_visual true (record (clear_search_error c) { applied_query = query_in c })

  -- Those of a search that is cleared, before the button is brought up to date.
  abbrev emptied : Controls → Controls
  emptied c =
      record (clear_search_error (record c {
        input = if c.parts.has_input then "" else c.input;
        input_focused = if c.parts.has_input then true else c.input_focused;
      })) { applied_query = "" }

  -- Those of a sort value that is chosen.
  abbrev chosen : String → String → Controls → Controls
  chosen checked v c = set_sort_menu_selection checked (record c { sort_value = set_select v })

  searched-IsMarked : (c : Controls) → IsMarked c → IsMarked (searched c)
  unfolding clear_search_error set_search_applied_visual
  searched-IsMarked c (k, i, j) = (k, ground arith, ground arith)

  emptied-IsMarked : (c : Controls) → IsMarked c → IsMarked (emptied c)
  unfolding clear_search_error trim
  emptied-IsMarked c (k, i, j) = elim (Bool-cases c.parts.has_input) [
    | inl t ↦ rw t (k, ground arith, ground arith)
    | inr t ↦ rw t (k, ground arith, ground arith)
  ]

  emptied-IsHonest : (c : Controls) → IsHonest c → IsHonest (sync_search_button_state (emptied c))
  unfolding clear_search_error sync_search_button_state trim
  emptied-IsHonest c h = elim (Bool-cases c.parts.has_input) [
    | inl t ↦ rw t (ground arith)
    | inr t ↦ rw t (ground arith)
  ]

  step-IsInStep :
      (e : Event) (c : Controls)
      → IsInStep c
      → IsInStep (step to_lower locale_compare print r order e c)
  unfolding step trim
  step-IsInStep (typed s) c (h, d, (k, i, j)) =
      guarded IsInStep c.parts.has_input c _ (λ _. (h, d, (k, i, j)))
        λ y. elim (Bool-cases (is_truthy (trim s))) [
          | inl t ↦ rw (y, t) (h, inr (ground arith), (ground arith, ground arith, ground arith))
          | inr t ↦ rw (y, t) (h, inr (ground arith), (ground arith, ground arith, ground arith))
        ]
  step-IsInStep submitted c (h, d, m) =
      guarded IsInStep c.parts.has_form c _ (λ _. (h, d, m))
        λ y.
          guarded IsInStep (has_query c) (show_search_error r c) _
            (λ t. (h, d, (m.0, ground (arith, m), ground (arith, m))))
            (λ t. apply-IsInStep (some "search") (searched c) (searched-IsMarked c m))
  step-IsInStep cleared c (h, d, m) =
      guarded IsInStep c.parts.has_clear_button c _ (λ _. (h, d, m))
        λ y.
          apply-IsInStep (some "clear") (sync_search_button_state (emptied c))
            (sync-IsMarked (emptied c) (emptied-IsMarked c m))
  step-IsInStep (selected v) c (h, d, m) =
      guarded IsInStep c.parts.has_select c _ (λ _. (h, d, m))
        λ _. apply-IsInStep (some "search") (chosen (text_or (set_select v) "default") v c) m
  step-IsInStep (item_clicked v) c (h, d, m) =
      guarded IsInStep c.parts.has_select c _ (λ _. (h, d, m))
        λ _. apply-IsInStep (some "search") (chosen (text_or v "default") (text_or v "default") c) m

  step-IsHonest :
      (e : Event) (c : Controls)
      → IsHonest c
      → IsHonest (step to_lower locale_compare print r order e c)
  unfolding step trim
  step-IsHonest (typed s) c h =
      guarded IsHonest c.parts.has_input c _ (λ _. h)
        λ y. elim (Bool-cases (is_truthy (trim s))) [
          | inl t ↦ rw (y, t) (ground arith)
          | inr t ↦ rw (y, t) (ground arith)
        ]
  step-IsHonest submitted c h =
      guarded IsHonest c.parts.has_form c _ (λ _. h)
        λ y.
          guarded IsHonest (has_query c) (show_search_error r c) _ (λ _. h)
            λ t. apply-IsHonest (some "search") (searched c) (ground (arith, eq_refl (query_in c)))
  step-IsHonest cleared c h =
      guarded IsHonest c.parts.has_clear_button c _ (λ _. h)
        λ y.
          apply-IsHonest (some "clear") (sync_search_button_state (emptied c))
            (emptied-IsHonest c h)
  step-IsHonest (selected v) c h =
      guarded IsHonest c.parts.has_select c _ (λ _. h)
        λ _. apply-IsHonest (some "search") (chosen (text_or (set_select v) "default") v c) h
  step-IsHonest (item_clicked v) c h =
      guarded IsHonest c.parts.has_select c _ (λ _. h)
        λ _. apply-IsHonest (some "search") (chosen (text_or v "default") (text_or v "default") c) h

  -- Whatever the user does, in any order, and whichever of the controls the page lacks, the grid shows the
  -- wallets for the applied query and the sort value, up to the first without an address, for which the
  -- rendering throws; where each of them has an address, the clear button agrees with the input; the error
  -- shows only for an empty input; and the search button looks applied only while the applied query is the
  -- one in the input, if all this holds before.
  pub run-IsInStep :
      (es : List Event) (c : Controls)
      → IsInStep c
      → IsHonest c
      → let d = run to_lower locale_compare print r order es c in IsInStep d × IsHonest d
  unfolding run
  run-IsInStep [] c h k = (h, k)
  run-IsInStep (e ∷ es) c h k =
      run-IsInStep es (step to_lower locale_compare print r order e c) (step-IsInStep e c h)
        (step-IsHonest e c k)

  -- A load ends with the controls in step, whatever the elements were left with, as long as an error
  -- that shows is for an empty input and is marked on it, and no missing button shows.
  pub start-IsInStep :
      (c : Controls) → IsMarked c → IsInStep (start to_lower locale_compare print r order c)
  unfolding start
  start-IsInStep c m =
      let ready = set_sort_menu_selection (sort_in c) (record c { applied_query = "" }) in
      apply-IsInStep none (sync_search_button_state ready) (sync-IsMarked ready m)

  -- A load while the search button looks applied, as after a change of language, leaves it so though
  -- the grid is no longer searched: the applied query is empty and the one in the input is not.
  pub start-not_IsHonest :
      (c : Controls)
      → IsHonest c
      → c.is_search_applied ≡ true
      → let d = start to_lower locale_compare print r order c in
        (d.is_search_applied ≡ true) × (d.applied_query ≡ "") × (has_query d ≡ true)
  unfolding start sync_search_button_state
  start-not_IsHonest c h y =
      let q = queried c h y in
      let ready = set_sort_menu_selection (sort_in c) (record c { applied_query = "" }) in
      let (a, b, k) = apply-keeps none (sync_search_button_state ready) in
      (a ∙ (rw q y), b ∙ (rw q refl), k ∙ (rw q q))
    where
      queried : (c : Controls) → IsHonest c → c.is_search_applied ≡ true → has_query c ≡ true
      queried c h y = ground arith
