-- ===== src/Eid/Tests.antt =====
-- The page of digital identities at small inputs.
use satosa_saml2spid.Base.{
  String, ◌≡◌, refl, true, false, Option, none, some, Result, ok, err, ◌>>=◌, includes, List, [],
  ◌∷◌, ◌++◌, ◌==◌, length, find_key, if◌then◌else◌, ◌≤◌, arith,
}
use satosa_saml2spid.Dom.Tree.{Node, text, every, child_count}
use satosa_saml2spid.Dom.Page.{El}
use satosa_saml2spid.Eid.Bundle.{Eid, missing, entries, Bundle, check_id, read_in}
use satosa_saml2spid.Eid.Entries.{merge_cie, values, entries_for_row, get_eid_entries_for_row}
use satosa_saml2spid.Eid.Entries.Laws.{others, get_eid_entries_for_row-merge}
use satosa_saml2spid.Eid.Slug.{wallet_card_slug}
use satosa_saml2spid.Eid.Slug.Laws.{
  slug_or_dash, all_codes, starts_well, ends_well, wallet_card_slug_lem,
}
use satosa_saml2spid.Eid.Menu.{link, Menu, handle_arrow}
use satosa_saml2spid.Eid.Menu.Laws.{at_link, handle_arrow_lem}
use satosa_saml2spid.Eid.Menu.Panel.{Panel, cleared}
use satosa_saml2spid.Eid.Menu.Panel
use satosa_saml2spid.Eid.Dropdown.{new, button_key, frame, document_key, step, run}
use satosa_saml2spid.Eid.Dropdown.Laws.{by_space, by_escape, stale_listener}
use satosa_saml2spid.Eid.Dropdown.Expand
use satosa_saml2spid.Eid.Dropdown.Expand.{
  Expander, on_toggle, clicked, next_frame, IsSound, run-IsSound,
}
use satosa_saml2spid.Eid.LearnMore.{create_learn_more}
use satosa_saml2spid.Eid.LearnMore.Laws.{is_safe}
use satosa_saml2spid.Eid.Cards.{group_of, card_columns, create_eid_card_box, create_eid_cards_row}
use satosa_saml2spid.Eid.Cards.Button.{create_logo_button, button_for, target_href, is_wallet}
use satosa_saml2spid.Eid.Cards.Laws.{create_eid_cards_row-eq-ok}
use satosa_saml2spid.Eid.Page.{Site, container}

abbrev pub eid : String → Eid
eid s = record {
  name = some s;
  logo_text = none;
  logo = none;
  login_url = none;
  learn_more_descr = none;
  learn_more_link = none;
  learn_more_label = none;
  learn_more_toggle_label = none;
}

abbrev both_cie : List (String × Eid)
both_cie = ("spid", eid "SPID") ∷ ("cie", eid "CIE") ∷ ("cie_oidc", eid "OIDC") ∷ []

cie_there : find_key "cie" both_cie ≡ some (eid "CIE")
unfolding find_key
cie_there = refl

cie_oidc_there : find_key "cie_oidc" both_cie ≡ some (eid "OIDC")
unfolding find_key
cie_oidc_there = refl

get_eid_entries_for_row-merge_example :
    get_eid_entries_for_row (entries both_cie)
    ≡ values (("spid", eid "SPID") ∷ [])
      ++ merge_cie (eid "CIE") (eid "OIDC") ∷ values (others (("cie_oidc", eid "OIDC") ∷ []))
get_eid_entries_for_row-merge_example =
    get_eid_entries_for_row-merge (("spid", eid "SPID") ∷ []) (("cie_oidc", eid "OIDC") ∷ []) "cie"
      (eid "CIE") (eid "CIE") (eid "OIDC") refl refl cie_there cie_oidc_there

abbrev only_cie : List (String × Eid)
only_cie = ("cie", eid "CIE") ∷ []

no_oidc : find_key "cie_oidc" only_cie ≡ none
unfolding find_key
no_oidc = refl

abbrev pub same : String → String
same s = s

wallet_card_slug_lem_example :
    let slug = wallet_card_slug same (some "--") none in
    (all_codes slug_or_dash slug ≡ true) × (starts_well slug ≡ true) × (ends_well slug ≡ true)
wallet_card_slug_lem_example = wallet_card_slug_lem same (some "--") none

abbrev pub menu : Menu
menu = record { tabs = []; focus = link 2; expanded = true }

two_le : 2 ≤ 2
two_le = omega arith

handle_arrow_lem_example : handle_arrow 3 "ArrowDown" menu ≡ (at_link 2 0 menu, true)
handle_arrow_lem_example = handle_arrow_lem 2 "ArrowDown" menu two_le refl

abbrev pub browser : Panel.Browser
browser = record {
  jquery = true;
  click = λ p. p;
  hide = λ p. p;
  is_shown = λ p. p.marked;
  links = λ p. 3;
}

abbrev pub open_panel : Panel
open_panel = record { marked = true; display = cleared; menu = menu }

stale_listener_example :
    let t = run new (button_key " " ∷ frame ∷ button_key "Escape" ∷ frame ∷ frame ∷ []) in
    (t.shown ≡ false)
    × (t.listening ≡ true)
    × ((step t (document_key "Escape")).button_focused ≡ true)
stale_listener_example =
    stale_listener new (button_key " ") (button_key "Escape") true by_space by_escape refl refl

abbrev pub bundle : Bundle
bundle = record {
  sections = ("titles", []) ∷ ("loading", ("error", "Errore") ∷ []) ∷ [];
  digital_id = missing;
  alternative_id = missing;
}

abbrev pub empty_container : El
empty_container = record { tag = "div"; attrs = []; content = [] }

abbrev pub site : Site
site = record {
  page = λ k. if k == container then some empty_container else none;
  title = "";
  alternative = none;
  has_place = true;
  loaded_once = false;
  heading_focused = false;
}

nothing_given : check_id missing ≡ false
unfolding check_id
nothing_given = refl

abbrev linked_eid : Eid
linked_eid = record (eid "Altro") { learn_more_link = some "https://example.org" }

abbrev texts : Bundle
texts = record {
  sections =
      ("titles", ("learn_more", "Di più") ∷ ("find_how_to_get_digital_id", "Come") ∷ []) ∷ [];
  digital_id = entries (("other", linked_eid) ∷ []);
  alternative_id = missing;
}

abbrev node_of : Result (Option Node) → Node
node_of (ok (some n)) = n
node_of _ = text ""

unfoldable learn_more : Node
learn_more = node_of (create_learn_more same texts linked_eid "id")

learn_more_made : create_learn_more same texts linked_eid "id" ≡ ok (some learn_more)
unfolding learn_more create_learn_more read_in find_key ◌>>=◌
learn_more_made = refl

abbrev row_of : Result Node → Node
row_of (ok n) = n
row_of (err e) = text ""

unfoldable row : Node
row = row_of (create_eid_cards_row same "" texts "digital_id" 2)

row_made : create_eid_cards_row same "" texts "digital_id" 2 ≡ ok row
unfolding row create_eid_cards_row card_columns create_eid_card_box create_logo_button
    get_eid_entries_for_row entries_for_row create_learn_more read_in find_key ◌>>=◌ button_for
    target_href is_wallet includes
row_made = refl

create_eid_cards_row-eq-ok_example :
    (child_count row ≡ length (get_eid_entries_for_row (group_of texts "digital_id")))
    × (every is_safe row ≡ true)
create_eid_cards_row-eq-ok_example =
    create_eid_cards_row-eq-ok same "" texts "digital_id" 2 row row_made

abbrev expander : Expander
expander = record {
  state = record {
    aria_expanded = "false";
    aria_labelledby = "action title";
    toggle_expanded = false;
    panel_open = false;
    panel_hidden = true;
  };
  tabindex = none;
  has_focusable = false;
  frames = 0;
  focus = on_toggle;
}

run-IsSound_example : IsSound (
    Expand.run "action title" (clicked ∷ clicked ∷ next_frame ∷ clicked ∷ next_frame ∷ []) expander)
run-IsSound_example =
    run-IsSound "action title" (clicked ∷ clicked ∷ next_frame ∷ clicked ∷ next_frame ∷ []) expander
      (refl, tt)
