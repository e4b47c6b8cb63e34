-- ===== src/Eid/Cards/Laws.antt =====
-- What holds of every card and row that is built.
use satosa_saml2spid.Base.{
  String, ℕ, suc, ◌<>◌, ◌≡◌, refl, ap, ◌∙◌, Bool, true, false, ◌&&◌, Option, none, some, Result, ok,
  Ensures, Ensures-bind, Ensures-ok, returned, List, [], ◌∷◌, map, length, ◌==◌, eq_iff,
  if◌then◌else◌, arith, find_key, Bool-cases, inl, inr,
}
use satosa_saml2spid.Dom.Tree.{
  Node, element, text, html, nodes, every, every_child, child_count, child_count-nodes,
}
use satosa_saml2spid.Dom.Page.{set_entry}
use satosa_saml2spid.Eid.Bundle.{Eid, Bundle, text_of}
use satosa_saml2spid.Eid.Entries.{Card, get_eid_entries_for_row}
use satosa_saml2spid.Eid.LearnMore.Laws.{
  is_safe, Passes, every_child-text_nodes_only, create_learn_more-Passes,
}
use satosa_saml2spid.Eid.Cards.{
  add_margin, learn_more_nodes, card_article, create_eid_card_box, card_columns, group_of,
  create_eid_cards_row,
}
use satosa_saml2spid.Eid.Cards.Button.{
  text_span, cie_option, cie_menu, spid_menu, plain_button, is_wallet, create_logo_button,
  button_for,
}
use satosa_saml2spid.Eid.Cards.Button.Classes

text_span-safe : (e : Eid) → every is_safe (text_span e) ≡ true
unfolding text_span every find_key
text_span-safe e = rw (every_child-text_nodes_only is_safe (text_of e.logo_text)) refl

cie_options-safe : (os : List Eid) → every_child is_safe (nodes (map cie_option os)) ≡ true
unfolding every cie_option find_key
cie_options-safe [] = refl
cie_options-safe (o ∷ os) = cie_options-safe os

cie_menu-safe :
    (to_lower : String → String) (e : Eid) (os : List Eid)
    → every is_safe (cie_menu to_lower e os) ≡ true
unfolding cie_menu every find_key
cie_menu-safe to_lower e os =
    rw (every_child-text_nodes_only is_safe (text_of e.logo_text), cie_options-safe os) refl

spid_menu-safe :
    (to_lower : String → String) (e : Eid) → every is_safe (spid_menu to_lower e) ≡ true
unfolding spid_menu every find_key
spid_menu-safe to_lower e = rw (every_child-text_nodes_only is_safe (text_of e.logo_text)) refl

plain_button-safe :
    (to_lower : String → String) (e : Eid) → every is_safe (plain_button to_lower e) ≡ true
unfolding plain_button every find_key
plain_button-safe to_lower e = elim (Bool-cases (is_wallet to_lower e)) [
  | inl w ↦ rw (w, every_child-text_nodes_only is_safe (text_of e.logo_text)) refl
  | inr n ↦ rw (n, every_child-text_nodes_only is_safe (text_of e.logo_text)) refl
]

button_for-Ensures :
    (to_lower : String → String) (is_spid : Bool) (search : String) (e : Eid)
    → Ensures (λ n. every is_safe n ≡ true) (button_for to_lower is_spid search e)
unfolding button_for
button_for-Ensures to_lower true search e = returned _ (spid_menu-safe to_lower e)
button_for-Ensures to_lower false search e =
    Ensures-bind _ _ λ href _. returned _ (plain_button-safe to_lower e)

create_logo_button-Ensures :
    (to_lower : String → String) (search : String) (c : Card)
    → Ensures (λ n. every is_safe n ≡ true) (create_logo_button to_lower search c)
create_logo_button-Ensures to_lower search c = by_options c.cie_options
  where
    by_options :
        (os : List Eid)
        → Ensures
            (λ n. every is_safe n ≡ true)
            (create_logo_button to_lower search (record c { cie_options = os }))
    by_options [] = unfold create_logo_button in button_for-Ensures to_lower _ search c.eid
    by_options (o ∷ os) =
        unfold create_logo_button in returned _ (cie_menu-safe to_lower c.eid (o ∷ os))

find_key-set_entry :
    (j k v : String) (m : List (String × String))
    → (k == j) ≡ false
    → find_key j (set_entry k v m) ≡ find_key j m
unfolding find_key set_entry
find_key-set_entry j k v [] h = ground arith
find_key-set_entry j k v ((i, w) ∷ m) h =
    ground (arith, eq_iff i k, eq_iff i j, eq_iff k j, find_key-set_entry j k v m)

find_key-add :
    (j : String) (token : String) (attrs : List (String × String))
    → ("class" == j) ≡ false
    → find_key j (Classes.add token attrs) ≡ find_key j attrs
unfolding Classes.add
find_key-add j token attrs h = by_class (find_key "class" attrs) refl
  where
    by_class :
        (o : Option String)
        → find_key "class" attrs ≡ o
        → find_key j (Classes.add token attrs) ≡ find_key j attrs
    by_class none e = ground (arith, find_key-set_entry j "class" token attrs)
    by_class (some class) e =
        ground (arith, find_key-set_entry j "class" (class <> " " <> token) attrs)

is_safe-add :
    (tag token : String) (attrs : List (String × String))
    → is_safe tag (Classes.add token attrs) ≡ is_safe tag attrs
is_safe-add tag token attrs =
    ground (arith, find_key-add "target" token attrs refl, find_key-add "rel" token attrs refl)

add_margin-safe : (n : Node) → every is_safe n ≡ true → every is_safe (add_margin n) ≡ true
unfolding add_margin every
add_margin-safe (element tag attrs ns) h =
    ap (λ b. b && every_child is_safe ns) (is_safe-add tag "mt-2" attrs) ∙ h
add_margin-safe (text s) h = refl
add_margin-safe (html s) h = refl

learn_more_nodes-safe :
    (o : Option Node)
    → Passes (every is_safe) o
    → every_child is_safe (nodes (learn_more_nodes o)) ≡ true
unfolding every
learn_more_nodes-safe none h = refl
learn_more_nodes-safe (some n) h = rw (add_margin-safe n h) refl

card_article-safe :
    (to_lower : String → String) (search : String) (r : Bundle) (c : Card) (level : ℕ)
    (button : Node) (learn_more : Option Node)
    → every is_safe button ≡ true
    → Passes (every is_safe) learn_more
    → every is_safe (card_article to_lower search r c level button learn_more) ≡ true
unfolding card_article every find_key
card_article-safe to_lower search r c level button learn_more b l =
    rw
      (
        every_child-text_nodes_only is_safe (text_of c.eid.name),
        b,
        learn_more_nodes-safe learn_more l,
      )
      refl

-- What `if` chooses has what both branches have.
Ensures-if {ℓ κ} :
    {A : Type ℓ} {P : A → Type κ} (b : Bool) (m n : Result A)
    → Ensures P m
    → Ensures P n
    → Ensures P (if b then m else n)
Ensures-if true m n hm hn = hm
Ensures-if false m n hm hn = hn

create_eid_card_box-Ensures :
    (to_lower : String → String) (search : String) (r : Bundle) (c : Card) (level : ℕ)
    → Ensures (λ n. every is_safe n ≡ true) (create_eid_card_box to_lower search r c level)
unfolding create_eid_card_box
create_eid_card_box-Ensures to_lower search r c level = Ensures-bind _ _ λ button b.
    Ensures-bind _ _ λ learn_more l. returned _ (
      card_article-safe to_lower search r c level button learn_more
        (Ensures-ok _ button (create_logo_button-Ensures to_lower search c) b)
        (Ensures-ok _ learn_more
          (Ensures-if _ _ _ (create_learn_more-Passes to_lower r c.eid _) (returned none tt)) l))

-- The columns of a row: one for each card, with safe links only.
record AreColumns (cs : List Card) (ns : List Node) : Type 0 where
  counted : length ns ≡ length cs
  safe : every_child is_safe (nodes ns) ≡ true

card_columns-Ensures :
    (to_lower : String → String) (search : String) (r : Bundle) (level : ℕ) (cs : List Card)
    → Ensures (AreColumns cs) (card_columns to_lower search r level cs)
unfolding card_columns every find_key
card_columns-Ensures to_lower search r level [] =
    returned [] (record { counted = refl; safe = refl })
card_columns-Ensures to_lower search r level (c ∷ cs) = Ensures-bind _ _ λ box b.
    Ensures-bind _ _ λ rest h. returned _ (
      let fits = Ensures-ok _ rest (card_columns-Ensures to_lower search r level cs) h in
      record {
        counted = ap suc fits.counted;
        safe =
            rw
              (
                Ensures-ok _ box (create_eid_card_box-Ensures to_lower search r c level) b,
                fits.safe,
              )
              refl;
      })

record IsRow (cs : List Card) (n : Node) : Type 0 where
  counted : child_count n ≡ length cs
  safe : every is_safe n ≡ true

create_eid_cards_row-Ensures :
    (to_lower : String → String) (search : String) (r : Bundle) (id_key : String) (level : ℕ)
    → Ensures
        (IsRow (get_eid_entries_for_row (group_of r id_key)))
        (create_eid_cards_row to_lower search r id_key level)
unfolding create_eid_cards_row every find_key
create_eid_cards_row-Ensures to_lower search r id_key level = Ensures-bind _ _ λ columns h.
    returned _ (
      let cs = get_eid_entries_for_row (group_of r id_key) in
      let fits = Ensures-ok _ columns (card_columns-Ensures to_lower search r level cs) h in
      record {
        counted = child_count-nodes columns ∙ fits.counted;
        safe = ground (arith, fits.safe);
      })

-- A row that is built has one list item for each card of its group, and every link below it that the
-- scripts create and that opens in a new window carries `rel="noopener noreferrer"`; the links in a text that
-- is given to `innerHTML` are the configuration's, and are not covered.
pub create_eid_cards_row-eq-ok :
    (to_lower : String → String) (search : String) (r : Bundle) (id_key : String) (level : ℕ)
    (n : Node)
    → create_eid_cards_row to_lower search r id_key level ≡ ok n
    → (child_count n ≡ length (get_eid_entries_for_row (group_of r id_key)))
      × (every is_safe n ≡ true)
create_eid_cards_row-eq-ok to_lower search r id_key level n h =
    let row = Ensures-ok _ n (create_eid_cards_row-Ensures to_lower search r id_key level) h in
    (row.counted, row.safe)
