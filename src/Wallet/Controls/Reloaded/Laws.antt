-- ===== src/Wallet/Controls/Reloaded/Laws.antt =====
-- However many loads have added their listeners, the user sees what those of the last load do.
use satosa_saml2spid.Base.{
  none, sym, true, ℕ, String, ℤ, ◌≡◌, refl, ap, ◌∙◌, List, [], ◌∷◌, text_or, Bool-cases, inl, inr,
}
use satosa_saml2spid.Eid.Bundle.{Bundle}
use satosa_saml2spid.Wallet.Order.{Wallet}
use satosa_saml2spid.Wallet.Controls.Laws.{apply-keeps}
use satosa_saml2spid.Wallet.Controls.{
  Controls, Event, typed, submitted, cleared, selected, item_clicked, has_query, all_drawn, sort_in,
  set_sort_menu_selection, sync_search_button_state, set_sort_value, on_submit, step, run, start,
}
use satosa_saml2spid.Wallet.Controls.Reloaded.{
  Closure, Shared, seen, Listener, page_after, by_all, step_shared, run_shared, load_again,
}
use satosa_saml2spid.Wallet.Controls.Reloaded.Overwrites.{
  Overwrites, submit-Overwrites, sort-Overwrites,
}

-- What the user sees, with the applied query of the last load.
abbrev pub view : Shared → Controls
view s = seen s.newest s.controls

page_after-last :
    (f : Listener) (o : List Wallet) (q : String) (ks : List Closure) (c : Controls)
    → Overwrites f o
    → f o (record (page_after f ks c) { applied_query = q }) ≡ f o (record c { applied_query = q })
unfolding page_after
page_after-last f o q [] c w = refl
page_after-last f o q (k ∷ ks) c w =
    page_after-last f o q ks (f k.order (seen k c)) w ∙ w k.order k.applied_query q c

by_all-last :
    (f : Listener) (s : Shared)
    → Overwrites f s.newest.order
    → view (by_all f s) ≡ f s.newest.order (view s)
unfolding by_all
by_all-last f s w = page_after-last f s.newest.order s.newest.applied_query s.older s.controls w

module _ (to_lower : String → String) (locale_compare : String → String → ℤ) (print : ℕ → String)
    (r : Bundle) where
  step-last :
      (e : Event) (s : Shared)
      → all_drawn s.newest.order ≡ true
      → view (step_shared to_lower locale_compare print r e s)
        ≡ step to_lower locale_compare print r s.newest.order e (view s)
  unfolding step_shared step
  step-last (typed t) s h = refl
  step-last submitted s h =
      by_all-last (on_submit to_lower locale_compare print r) s
        (submit-Overwrites to_lower locale_compare print r s.newest.order h)
  step-last cleared s h = refl
  step-last (selected v) s h = refl
  step-last (item_clicked v) s h =
      by_all-last
        (λ order. set_sort_value to_lower locale_compare print r order (text_or v "default")) s
        (sort-Overwrites to_lower locale_compare print r (text_or v "default") s.newest.order h)

  -- A listener changes the applied query of its load, and not its list.
  step-order :
      (e : Event) (s : Shared)
      → (step_shared to_lower locale_compare print r e s).newest.order ≡ s.newest.order
  unfolding step_shared
  step-order (typed t) s = refl
  step-order submitted s = refl
  step-order cleared s = refl
  step-order (selected v) s = refl
  step-order (item_clicked v) s = refl

  -- Where each wallet of the last load has an address, whatever the user does, in any order, the controls and
  -- the cards are those that the listeners of the last load alone would make, however many earlier loads have
  -- left theirs on the page, and whichever lists those have.
  pub run_shared-last :
      (es : List Event) (s : Shared)
      → all_drawn s.newest.order ≡ true
      → view (run_shared to_lower locale_compare print r es s)
        ≡ run to_lower locale_compare print r s.newest.order es (view s)
  unfolding run_shared run
  run_shared-last [] s h = refl
  run_shared-last (e ∷ es) s h =
      run_shared-last es (step_shared to_lower locale_compare print r e s)
        (ap all_drawn (step-order e s) ∙ h)
      ∙ rw (step-order e s)
          (ap (run to_lower locale_compare print r s.newest.order es) (step-last e s h))

  -- Another load starts from the elements as a first one does.
  load_again-view :
      (order : List Wallet) (s : Shared)
      → view (load_again to_lower locale_compare print r order s)
        ≡ start to_lower locale_compare print r order s.controls
  unfolding load_again start sync_search_button_state
  load_again-view order s =
      let ready =
        set_sort_menu_selection (sort_in s.controls) (record s.controls { applied_query = "" }) in
      let d = start to_lower locale_compare print r order s.controls in
      let fresh : (sync_search_button_state ready).applied_query ≡ "" =
        elim (Bool-cases (has_query ready)) [ inl y ↦ rw y refl | inr n ↦ rw n refl ] in
      let e : d.applied_query ≡ "" =
        (apply-keeps to_lower locale_compare print r order none (sync_search_button_state ready)).1
        ∙ fresh in
      ap (λ q. record d { applied_query = q }) (sym e)
