-- ===== src/ErrorPage/Laws.antt =====
-- The passes over the error page can be repeated, as they are when the language is changed.
use satosa_saml2spid.Base.{
  String, ◌≡◌, refl, ap, ◌∙◌, Bool, Option, none, some, List, [], ◌∷◌, arith,
}
use satosa_saml2spid.ErrorPage.{
  Inner, Item, translate_inner, translate_text, translate_label, visible_text, announce_window,
  apply_to_items,
}

module _ (t u : String → String) where
  -- The three passes over one element.
  abbrev translate : (String → String) → Item → Item
  translate v e = announce_window v (translate_label v (translate_text v e))

  translate_over : (e : Item) → translate u (translate t e) ≡ translate u e
  unfolding translate_text translate_label announce_window visible_text translate_inner
  translate_over e = by_fields e.i18n e.inner e.aria_key e.is_new_window
    where
      by_fields :
          (i : Option String) (n : Option Inner) (a : Option String) (w : Bool)
          → let x = record e { i18n = i; inner = n; aria_key = a; is_new_window = w } in
            translate u (translate t x) ≡ translate u x
      by_fields none none none w = ground arith
      by_fields none none (some a) w = ground arith
      by_fields none (some n) none w = ground arith
      by_fields none (some n) (some a) w = ground arith
      by_fields (some i) none none w = ground arith
      by_fields (some i) none (some a) w = ground arith
      by_fields (some i) (some n) none w = ground arith
      by_fields (some i) (some n) (some a) w = ground arith

  -- The passes in one language leave nothing of a run in another one.
  pub apply_to_items_over :
      (items : List Item) → apply_to_items u (apply_to_items t items) ≡ apply_to_items u items
  unfolding apply_to_items
  apply_to_items_over [] = refl
  apply_to_items_over (e ∷ items) =
      ap (λ x. x ∷ apply_to_items u (apply_to_items t items)) (translate_over e)
      ∙ ap (λ xs. translate u e ∷ xs) (apply_to_items_over items)

-- A second run of the three passes, each over all the marked elements, changes nothing.
pub apply_to_items_twice :
    (t : String → String) (items : List Item)
    → apply_to_items t (apply_to_items t items) ≡ apply_to_items t items
apply_to_items_twice t items = apply_to_items_over t t items
