-- ===== src/Wallet/Controls/Reloaded/Overwrites.antt =====
-- A search, and a choice of an order, leave nothing of what the listener of an older load has done.
use satosa_saml2spid.Base.{
  some, sym, length, true, if◌then◌else◌, ℕ, String, ℤ, ◌≡◌, refl, ap, ◌∙◌, List, Bool-cases, inl,
  inr,
}
use satosa_saml2spid.Eid.Bundle.{Bundle}
use satosa_saml2spid.Wallet.Order.{Wallet}
use satosa_saml2spid.Wallet.Find.{wallet_results_status_message, announce_wallet_status_message}
use satosa_saml2spid.Wallet.Controls.{
  Controls, has_query, all_drawn, drawn_wallets, query_in, set_select, set_sort_menu_selection,
  set_search_applied_visual, clear_search_error, sorted_wallets, apply_filters_and_sort,
  set_sort_value, on_submit,
}
use satosa_saml2spid.Wallet.Controls.Reloaded.{Listener}
use satosa_saml2spid.Wallet.Controls.Reloaded.Drawn.{unless, when, overwritten, all_drawn-sorted}

-- A listener that, for a list of which all can be drawn, leaves nothing of what one for another list has
-- done.
abbrev pub Overwrites : Listener → List Wallet → Type 0
Overwrites f o2 =
    (o1 : List Wallet) (q1 q2 : String) (c : Controls)
    → f o2 (record (f o1 (record c { applied_query = q1 })) { applied_query = q2 })
      ≡ f o2 (record c { applied_query = q2 })

module _ (to_lower : String → String) (locale_compare : String → String → ℤ) (print : ℕ → String)
    (r : Bundle) where
  abbrev sorted : List Wallet → Controls → List Wallet
  sorted o c = sorted_wallets to_lower locale_compare print r o c

  abbrev apply : List Wallet → Controls → Controls
  apply o c = apply_filters_and_sort to_lower locale_compare print r o (some "search") c

  -- The controls where all the cards are drawn.
  abbrev complete : List Wallet → Controls → Controls
  complete o c = record c {
    shown = drawn_wallets (sorted o c);
    clear_shown = if c.parts.has_clear_button then has_query c else c.clear_shown;
    status =
        announce_wallet_status_message c.parts.has_status
          (wallet_results_status_message print r (length (sorted o c)) "search") c.status;
  }

  apply-complete :
      (o : List Wallet) (c : Controls) → all_drawn (sorted o c) ≡ true → apply o c ≡ complete o c
  unfolding apply_filters_and_sort
  apply-complete o c h = unless (all_drawn (sorted o c)) _ _ h

  -- The rendering of another list before that of a list that is drawn leaves no trace.
  apply-twice :
      (o1 o2 : List Wallet) (k : Controls → Controls) (c d : Controls)
      → all_drawn o2 ≡ true
      → k (record c { shown = drawn_wallets (sorted o1 c) }) ≡ d
      → k (complete o1 c) ≡ d
      → k (apply o1 c) ≡ d
  unfolding apply_filters_and_sort
  apply-twice o1 o2 k c d h failed drawn = elim (Bool-cases (all_drawn (sorted o1 c))) [
    | inl y ↦ ap k (apply-complete o1 c y) ∙ drawn
    | inr n ↦ ap k (when (all_drawn (sorted o1 c)) _ _ n) ∙ failed
  ]

  all_drawn-apply :
      (o : List Wallet) (c : Controls) → all_drawn o ≡ true → all_drawn (sorted o c) ≡ true
  unfolding sorted_wallets
  all_drawn-apply o c h = all_drawn-sorted to_lower locale_compare o h _ _

  abbrev searched : Controls → Controls
  searched c =
      set_search_applied_visual true (record (clear_search_error c) { applied_query = query_in c })

  submit-complete :
      (o : List Wallet) (c : Controls)
      → all_drawn o ≡ true
      → c.parts.has_form ≡ true
      → has_query c ≡ true
      → on_submit to_lower locale_compare print r o c ≡ complete o (searched c)
  unfolding on_submit
  submit-complete o c h f y =
      unless c.parts.has_form _ _ f
      ∙ unless (has_query c) _ _ y
      ∙ apply-complete o (searched c) (all_drawn-apply o (searched c) h)

  -- What an older search has drawn, all of it or some, is overwritten.
  searched-twice :
      (o1 o2 : List Wallet) (q1 q2 : String) (c : Controls)
      → let done_before = searched (record c { applied_query = q1 }) in
        (complete o2 (
            searched (record done_before {
              shown = drawn_wallets (sorted o1 done_before);
              applied_query = q2;
            }))
          ≡ complete o2 (searched (record c { applied_query = q2 })))
        × (complete o2 (searched (record (complete o1 done_before) { applied_query = q2 }))
            ≡ complete o2 (searched (record c { applied_query = q2 })))
  unfolding clear_search_error set_search_applied_visual sorted_wallets
      announce_wallet_status_message
  searched-twice o1 o2 q1 q2 c = (simp overwritten, simp overwritten)

  pub submit-Overwrites :
      (o2 : List Wallet)
      → all_drawn o2 ≡ true
      → Overwrites (on_submit to_lower locale_compare print r) o2
  unfolding on_submit
  submit-Overwrites o2 h o1 q1 q2 c = elim (Bool-cases c.parts.has_form) [
    | inr n ↦ simp n
    | inl f ↦ elim (Bool-cases (has_query c)) [
      | inr n ↦ simp (f, n, overwritten)
      | inl y ↦
          let k : Controls → Controls =
            λ d. on_submit to_lower locale_compare print r o2 (record d { applied_query = q2 }) in
          let before = searched (record c { applied_query = q1 }) in
          let plain = record c { applied_query = q2 } in
          let some_drawn = record before {
            shown = drawn_wallets (sorted o1 before);
            applied_query = q2;
          } in
          let all_there = record (complete o1 before) { applied_query = q2 } in
          let twice = searched-twice o1 o2 q1 q2 c in
          let back = sym (submit-complete o2 plain h f y) in
          ap k (unless c.parts.has_form _ _ f ∙ unless (has_query c) _ _ y)
          ∙ apply-twice o1 o2 k before _ h (submit-complete o2 some_drawn h f y ∙ twice.0 ∙ back)
              (submit-complete o2 all_there h f y ∙ twice.1 ∙ back)
    ]
  ]

  abbrev chosen : String → Controls → Controls
  chosen v c = set_sort_menu_selection v (record c { sort_value = set_select v })

  choice-complete :
      (o : List Wallet) (v : String) (c : Controls)
      → all_drawn o ≡ true
      → c.parts.has_select ≡ true
      → set_sort_value to_lower locale_compare print r o v c ≡ complete o (chosen v c)
  unfolding set_sort_value
  choice-complete o v c h y =
      unless c.parts.has_select _ _ y
      ∙ apply-complete o (chosen v c) (all_drawn-apply o (chosen v c) h)

  chosen-twice :
      (o1 o2 : List Wallet) (v q1 q2 : String) (c : Controls)
      → let done_before = chosen v (record c { applied_query = q1 }) in
        (complete o2 (
            chosen v (record done_before {
              shown = drawn_wallets (sorted o1 done_before);
              applied_query = q2;
            }))
          ≡ complete o2 (chosen v (record c { applied_query = q2 })))
        × (complete o2 (chosen v (record (complete o1 done_before) { applied_query = q2 }))
            ≡ complete o2 (chosen v (record c { applied_query = q2 })))
  unfolding sorted_wallets announce_wallet_status_message
  chosen-twice o1 o2 v q1 q2 c = (refl, simp overwritten)

  pub sort-Overwrites :
      (v : String) (o2 : List Wallet)
      → all_drawn o2 ≡ true
      → Overwrites (λ order. set_sort_value to_lower locale_compare print r order v) o2
  unfolding set_sort_value
  sort-Overwrites v o2 h o1 q1 q2 c = elim (Bool-cases c.parts.has_select) [
    | inr n ↦ simp n
    | inl y ↦
        let k : Controls → Controls = λ d.
          set_sort_value to_lower locale_compare print r o2 v (record d { applied_query = q2 }) in
        let before = chosen v (record c { applied_query = q1 }) in
        let plain = record c { applied_query = q2 } in
        let some_drawn = record before {
          shown = drawn_wallets (sorted o1 before);
          applied_query = q2;
        } in
        let all_there = record (complete o1 before) { applied_query = q2 } in
        let twice = chosen-twice o1 o2 v q1 q2 c in
        let back = sym (choice-complete o2 v plain h y) in
        ap k (unless c.parts.has_select _ _ y)
        ∙ apply-twice o1 o2 k before _ h (choice-complete o2 v some_drawn h y ∙ twice.0 ∙ back)
            (choice-complete o2 v all_there h y ∙ twice.1 ∙ back)
  ]
