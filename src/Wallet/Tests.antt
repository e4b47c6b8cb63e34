-- ===== src/Wallet/Tests.antt =====
-- The wallet page at small inputs. The case mapping and the comparison are concrete functions.
use mathlib.Core.List.{Permᴰ}
use satosa_saml2spid.Base.{
  ℕ, ◌≤◌, ◌<◌, String, ◌≡◌, ◌↔◌, refl, Bool, true, false, Option, none, some, ℤ, pos, negsuc, List,
  [], ◌∷◌, ◌++◌, is_truthy, trim, includes, filter, length, arith, done, threw, find_key,
  if◌then◌else◌, ◌==◌,
}
use satosa_saml2spid.Dom.Page.{El}
use satosa_saml2spid.Dom.Tree.{Node}
use satosa_saml2spid.Eid.Bundle.{Bundle, missing, text_of}
use satosa_saml2spid.Eid.Menu.{link, trigger, roving}
use satosa_saml2spid.Wallet.Order.{Wallet, shuffle_wallets, by_name, sort_wallets}
use satosa_saml2spid.Wallet.Order.Laws.{
  Sorted, leq, named, shuffle_wallets-Perm, sort_wallets-Sorted,
}
use satosa_saml2spid.Wallet.Find.{is_blank, filter_wallets}
use satosa_saml2spid.Wallet.Controls.{
  Controls, Parts, typed, submitted, cleared, has_query, run, start,
}
use satosa_saml2spid.Wallet.Controls.Laws.{
  IsInStep, IsHonest, run-IsInStep, start-IsInStep, start-not_IsHonest,
}
use satosa_saml2spid.Wallet.Controls.SortMenu.{
  SortMenu, no_tabs, step, clicked_trigger, pressed_on_menu,
}
use satosa_saml2spid.Wallet.Controls.SortMenu.Laws.{
  IsTidy, IsQuiet, shut, step-IsTidy, arrow_down_lem,
}
use satosa_saml2spid.Wallet.Controls.MobilePanel.{MobilePanel, IsTold, whole, elsewhere}
use satosa_saml2spid.Wallet.Load.{Site}
use satosa_saml2spid.Wallet.Controls.MobilePanel.Reload
use satosa_saml2spid.Wallet.Controls.MobilePanel.Reload.{reloaded, IsHarmless, step-IsTold}
use satosa_saml2spid.Wallet.Cards.{Browser, render_wallets, append_wallets}
use satosa_saml2spid.Wallet.Cards.Laws.{AreCards, render_wallets-done, append_wallets-stops}

shuffle_wallets-Perm_example :
    (ys : List String) × (shuffle_wallets (λ i. 4) ("a" ∷ "b" ∷ "c" ∷ []) ≡ some ys)
    × Permᴰ ys ("a" ∷ "b" ∷ "c" ∷ [])
shuffle_wallets-Perm_example = shuffle_wallets-Perm (λ i. 4) ("a" ∷ "b" ∷ "c" ∷ [])

-- Texts compared by whether they are empty.
abbrev pub compare_lengths : String → String → ℤ
compare_lengths a b =
    if is_truthy a
    then (if is_truthy b then pos 0 else pos 1)
    else if is_truthy b
    then negsuc 0
    else pos 0

abbrev pub wallet : String → String → Wallet
wallet id uri = record {
  id = some id;
  name = some id;
  uri = some uri;
  logo_uri = none;
  description = none;
  how_to_get_url = none;
}

abbrev pub lost : Wallet
lost = record {
  id = some "lost";
  name = none;
  uri = none;
  logo_uri = none;
  description = none;
  how_to_get_url = none;
}

abbrev pub two_wallets : List Wallet
two_wallets = wallet "b" "/b" ∷ wallet "" "/c" ∷ []

lengths_total : (a b : String) → leq compare_lengths a b ≡ false → leq compare_lengths b a ≡ true
lengths_total a b h = ground arith

lengths_transitive :
    (a b c : String)
    → leq compare_lengths a b ≡ true
    → leq compare_lengths b c ≡ true
    → leq compare_lengths a c ≡ true
lengths_transitive a b c h k = ground arith

sort_wallets-Sorted_example :
    let az = sort_wallets compare_lengths two_wallets "az" in
    let za = sort_wallets compare_lengths two_wallets "za" in
    Sorted (by_name compare_lengths) az
    × Sorted (λ a b. by_name compare_lengths b a) za
    × (filter (named compare_lengths "b") az ≡ filter (named compare_lengths "b") two_wallets)
    × (filter (named compare_lengths "b") za ≡ filter (named compare_lengths "b") two_wallets)
sort_wallets-Sorted_example =
    sort_wallets-Sorted compare_lengths lengths_total lengths_transitive two_wallets "b"

-- Text without upper case letters.
abbrev pub lower : String → String
lower s = s

not_blank : is_blank " b " ≡ false
unfolding is_blank trim
not_blank = refl

abbrev found_in : Option String → Bool
found_in field = includes (text_of field) (trim " b ")

abbrev pub no_texts : Bundle
no_texts = record { sections = []; digital_id = missing; alternative_id = missing }

abbrev pub print_count : ℕ → String
print_count n = "n"

abbrev all_there : Parts
all_there = record {
  has_input = true;
  has_error = true;
  has_clear_button = true;
  has_search_button = true;
  has_form = true;
  has_select = true;
  has_status = true;
}

abbrev pub before_load : String → Bool → Controls
before_load s applied = record {
  parts = all_there;
  input = s;
  sort_value = "default";
  applied_query = s;
  is_search_applied = applied;
  clear_shown = false;
  error_shown = false;
  error_text = "";
  aria_invalid = false;
  checked_item = "default";
  shown = [];
  status = "";
  input_focused = false;
}

loaded_IsInStep :
    IsInStep lower compare_lengths print_count no_texts two_wallets
      (start lower compare_lengths print_count no_texts two_wallets (before_load "" false))
loaded_IsInStep =
    start-IsInStep lower compare_lengths print_count no_texts two_wallets (before_load "" false)
      (refl, refl, refl)

idle_IsHonest :
    IsHonest lower compare_lengths print_count no_texts two_wallets
      (start lower compare_lengths print_count no_texts two_wallets (before_load "" false))
unfolding start trim sort_wallets filter_wallets
idle_IsHonest = refl

run-IsInStep_example :
    let c = start lower compare_lengths print_count no_texts two_wallets (before_load "" false) in
    let d =
      run lower compare_lengths print_count no_texts two_wallets
        (typed "b" ∷ submitted ∷ cleared ∷ [])
        c in
    IsInStep lower compare_lengths print_count no_texts two_wallets d
    × IsHonest lower compare_lengths print_count no_texts two_wallets d
run-IsInStep_example =
    run-IsInStep lower compare_lengths print_count no_texts two_wallets
      (typed "b" ∷ submitted ∷ cleared ∷ [])
      (start lower compare_lengths print_count no_texts two_wallets (before_load "" false))
      loaded_IsInStep idle_IsHonest

searched_IsHonest :
    IsHonest lower compare_lengths print_count no_texts two_wallets (before_load "b" true)
unfolding trim
searched_IsHonest = refl

start-not_IsHonest_example :
    let d = start lower compare_lengths print_count no_texts two_wallets (before_load "b" true) in
    (d.is_search_applied ≡ true) × (d.applied_query ≡ "") × (has_query d ≡ true)
start-not_IsHonest_example =
    start-not_IsHonest lower compare_lengths print_count no_texts two_wallets (before_load "b" true)
      searched_IsHonest refl

abbrev closed_menu : SortMenu
closed_menu = record {
  is_there = true;
  has_select = true;
  hidden = true;
  expanded = false;
  tabs = no_tabs 3;
  focus = trigger;
  active = some 0;
}

some_items : 0 < 3
some_items = omega arith

step-IsTidy_example :
    IsTidy 3 (step 2 3 clicked_trigger closed_menu) ↔ IsQuiet clicked_trigger closed_menu
step-IsTidy_example = step-IsTidy 2 3 clicked_trigger closed_menu some_items (shut refl refl refl)

abbrev open_menu : SortMenu
open_menu = record {
  is_there = true;
  has_select = true;
  hidden = false;
  expanded = true;
  tabs = roving 3 0 0;
  focus = link 0;
  active = some 0;
}

first_inside : 0 ≤ 2
first_inside = omega arith

arrow_down_lem_example : (step 2 3 (pressed_on_menu "ArrowDown") open_menu).focus ≡ link 2
arrow_down_lem_example = arrow_down_lem 2 2 0 open_menu refl refl refl first_inside

abbrev pub browser : Browser
browser = record {
  param = λ k. none;
  origin = "https://proxy.example.org";
  with_params = λ uri return_url entity. none;
  encode_uri_component = λ s. s;
  to_lower = λ s. s;
}

abbrev pub grid : El
grid = record { tag = "div"; attrs = []; content = [] }

render_wallets-done_example :
    let m = render_wallets browser no_texts "/" two_wallets grid in
    (g : El) × (m.0 ≡ done g)
    × (length g.content ≡ 2)
    × (find_key "aria-busy" g.attrs ≡ some "false")
    × (m.1 ≡ false)
render_wallets-done_example =
    render_wallets-done browser no_texts "/" two_wallets grid (("/b", refl), (("/c", refl), tt))

append_wallets-stops_example :
    (ns : List Node) × AreCards browser no_texts "/" two_wallets ns
    × (append_wallets browser no_texts "/" (two_wallets ++ (lost ∷ two_wallets)) grid
        ≡ threw "TypeError" (record grid { content = grid.content ++ ns }))
append_wallets-stops_example =
    append_wallets-stops browser no_texts "/" two_wallets two_wallets lost grid
      (("/b", refl), (("/c", refl), tt)) refl

abbrev small_screen : MobilePanel
small_screen = record {
  parts = whole;
  is_open = false;
  hidden = true;
  status = "";
  focus = elsewhere;
  expanded = false;
  toggle_label = "";
  open_icon_hidden = false;
  close_icon_hidden = true;
}

-- A page with a grid, whose list has a wallet without an address.
abbrev pub site : Site
site = record {
  page = λ k. if k == "#wallet-grid" then some grid else none;
  single = false;
  controls_hidden = false;
  actions_hidden = false;
  controls = before_load "" false;
}

step-IsTold_example :
    IsTold
      (Reload.step no_texts true reloaded
        (record { panel = small_screen; is_desktop = false })).panel
    ↔ IsHarmless reloaded (record { panel = small_screen; is_desktop = false })
step-IsTold_example =
    step-IsTold no_texts true reloaded (record { panel = small_screen; is_desktop = false })
      (refl, refl, refl)
