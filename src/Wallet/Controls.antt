-- ===== src/Wallet/Controls.antt =====
-- The search and sort controls of `loadItWalletPage`, on a page that may lack any of them. What
-- the listeners of one load do; `order` is `defaultWalletOrder` of that load.
pub mod Laws
pub mod Reloaded
pub mod SortMenu
pub mod MobilePanel
use satosa_saml2spid.Base.{
  ℕ, String, ℤ, Bool, true, false, not, ◌&&◌, ◌||◌, Option, none, some, List, [], ◌∷◌, ◌==◌, leb,
  if◌then◌else◌, is_truthy, text_or, trim, length,
}
use satosa_saml2spid.Eid.Bundle.{Bundle, read, or_else}
use satosa_saml2spid.Wallet.Order.{Wallet, has_uri, sort_wallets}
use satosa_saml2spid.Wallet.Find.{
  filter_wallets, wallet_results_status_message, announce_wallet_status_message,
}

-- Which elements the page has: the input, its error, its buttons and its form, the select, and the live
-- region.
pub record Parts : Type 0 where
  pub has_input : Bool
  pub has_error : Bool
  pub has_clear_button : Bool
  pub has_search_button : Bool
  pub has_form : Bool
  pub has_select : Bool
  pub has_status : Bool

-- What the page has, the value of the input and of the select, the closure's `appliedQuery`, the class of
-- the search button, the buttons and messages that show, the checked item of the menu, the cards, what
-- the live region says, and whether a listener has put the focus on the input. `error_text` is what the
-- last search that was refused has given the error.
pub record Controls : Type 0 where
  pub parts : Parts
  pub input : String
  pub sort_value : String
  pub applied_query : String
  pub is_search_applied : Bool
  pub clear_shown : Bool
  pub error_shown : Bool
  pub error_text : String
  pub aria_invalid : Bool
  pub checked_item : String
  pub shown : List Wallet
  pub status : String
  pub input_focused : Bool

-- What the user does: typing gives the input a new value.
pub data Event : Type 0 where
  typed : String → Event
  submitted cleared : Event
  selected item_clicked : String → Event

-- A select keeps a value that none of its options has as the empty text.
unfoldable pub set_select : String → String
set_select v = if (v == "default") || (v == "az") || (v == "za") then v else ""

abbrev pub set_sort_menu_selection : String → Controls → Controls
set_sort_menu_selection v c = record c { checked_item = v }

abbrev pub search_min_wallets : ℕ
search_min_wallets = 7

-- `searchInput?.value || ''`, trimmed.
abbrev pub query_in : Controls → String
query_in c = trim (if c.parts.has_input then c.input else "")

abbrev pub has_query : Controls → Bool
has_query c = is_truthy (query_in c)

-- `sortSelect?.value || 'default'`.
abbrev pub sort_in : Controls → String
sort_in c = text_or (if c.parts.has_select then c.sort_value else "") "default"

unfoldable pub set_search_applied_visual : Bool → Controls → Controls
set_search_applied_visual active c = record c {
  is_search_applied = if c.parts.has_search_button then active else c.is_search_applied;
}

unfoldable pub clear_search_error : Controls → Controls
clear_search_error c = record c {
  error_shown = if c.parts.has_error then false else c.error_shown;
  aria_invalid = if c.parts.has_input then false else c.aria_invalid;
}

unfoldable pub show_search_error : Bundle → Controls → Controls
show_search_error r c = record c {
  error_text =
      if c.parts.has_error
      then or_else (read r "search" "empty_error") "Inserisci un termine di ricerca"
      else c.error_text;
  error_shown = if c.parts.has_error then true else c.error_shown;
  aria_invalid = if c.parts.has_input then true else c.aria_invalid;
  input_focused = if c.parts.has_input then true else c.input_focused;
}

unfoldable pub sync_search_button_state : Controls → Controls
unfolding clear_search_error set_search_applied_visual
sync_search_button_state c =
    if has_query c then clear_search_error c else set_search_applied_visual false c

-- The wallets of which `renderWallets` appends a card, up to the first without an address, for which it
-- throws; and whether that is all of them.
unfoldable pub drawn_wallets : List Wallet → List Wallet
drawn_wallets [] = []
drawn_wallets (w ∷ ws) = elim (has_uri w) [ true ↦ w ∷ drawn_wallets ws | false ↦ [] ]

unfoldable pub all_drawn : List Wallet → Bool
all_drawn [] = true
all_drawn (w ∷ ws) = has_uri w && all_drawn ws

module _ (to_lower : String → String) (locale_compare : String → String → ℤ) (print : ℕ → String)
    (r : Bundle) where
  module _ (order : List Wallet) where
    unfoldable pub show_controls : Bool
    show_controls = leb search_min_wallets (length order)

    -- The wallets that the grid is given.
    unfoldable pub sorted_wallets : Controls → List Wallet
    unfolding show_controls
    sorted_wallets c =
        sort_wallets locale_compare
          (filter_wallets to_lower order (if show_controls then c.applied_query else ""))
          (if show_controls then sort_in c else "default")

    -- `applyFiltersAndSort`, on a page with the grid; the context is there when the result is announced.
    -- An exception of `renderWallets` ends it with the cards that are drawn so far.
    unfoldable pub apply_filters_and_sort : Option String → Controls → Controls
    unfolding sorted_wallets announce_wallet_status_message drawn_wallets all_drawn
    apply_filters_and_sort announce c =
        let sorted = sorted_wallets c in
        let drawn = record c { shown = drawn_wallets sorted } in
        if not (all_drawn sorted) then drawn else record drawn {
          clear_shown = if c.parts.has_clear_button then has_query c else c.clear_shown;
          status = elim announce [
            | none ↦ c.status
            | some context ↦
                announce_wallet_status_message c.parts.has_status
                  (wallet_results_status_message print r (length sorted) context) c.status
          ];
        }

    unfoldable pub set_sort_value : String → Controls → Controls
    unfolding set_select apply_filters_and_sort
    set_sort_value v c =
        if not c.parts.has_select
        then c
        else apply_filters_and_sort (some "search")
            (set_sort_menu_selection v (record c { sort_value = set_select v }))

    -- `oninput`, where there is an input.
    unfoldable pub on_input : String → Controls → Controls
    unfolding set_search_applied_visual sync_search_button_state
    on_input s c =
        let typed_in = record c { input = s } in
        if not c.parts.has_input
        then c
        else sync_search_button_state (
            set_search_applied_visual false (record typed_in {
              clear_shown = if c.parts.has_clear_button then has_query typed_in else c.clear_shown;
            }))

    -- The listener of `submit`, where there is a form.
    unfoldable pub on_submit : Controls → Controls
    unfolding apply_filters_and_sort show_search_error clear_search_error set_search_applied_visual
    on_submit c =
        if not c.parts.has_form
        then c
        else if not (has_query c)
        then show_search_error r c
        else apply_filters_and_sort (some "search") (
            set_search_applied_visual true
              (record (clear_search_error c) { applied_query = query_in c }))

    -- `onclick` of the button that clears the search, where there is one.
    unfoldable pub on_clear : Controls → Controls
    unfolding apply_filters_and_sort sync_search_button_state clear_search_error
    on_clear c =
        let emptied = record c {
          input = if c.parts.has_input then "" else c.input;
          input_focused = if c.parts.has_input then true else c.input_focused;
        } in
        if not c.parts.has_clear_button
        then c
        else apply_filters_and_sort (some "clear")
            (sync_search_button_state (record (clear_search_error emptied) { applied_query = "" }))

    -- `onchange` of the select, where there is one, after the user has chosen a value.
    unfoldable pub on_change : String → Controls → Controls
    unfolding apply_filters_and_sort set_select
    on_change v c =
        let chosen = record c { sort_value = set_select v } in
        if not c.parts.has_select
        then c
        else apply_filters_and_sort (some "search")
            (set_sort_menu_selection (text_or chosen.sort_value "default") chosen)

    unfoldable pub step : Event → Controls → Controls
    unfolding on_input on_submit on_clear on_change set_sort_value
    step (typed s) c = on_input s c
    step submitted c = on_submit c
    step cleared c = on_clear c
    step (selected v) c = on_change v c
    step (item_clicked v) c = set_sort_value (text_or v "default") c

    unfoldable pub run : List Event → Controls → Controls
    run [] c = c
    run (e ∷ es) c = run es (step e c)

    -- The end of a load, with a fresh `appliedQuery`: the elements keep what an earlier load left.
    unfoldable pub start : Controls → Controls
    unfolding sync_search_button_state apply_filters_and_sort
    start c = apply_filters_and_sort none (
        sync_search_button_state
          (set_sort_menu_selection (sort_in c) (record c { applied_query = "" })))
