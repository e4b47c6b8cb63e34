-- ===== src/Wallet/Session/Laws.antt =====
-- When no load is under way, the grid is not busy; a load that fails late replaces what a later one shows.
use satosa_saml2spid.Base.{
  ℕ, String, ℤ, ◌≡◌, ◌≢◌, ◌⊎◌, refl, ap, ◌∙◌, Bool, true, false, Option, none, some, List, [], ◌∷◌,
  get_elem?, length, length-append, Ended, done, state_of, Ends, at_done, at_threw, arith,
  Option-cases, inl, inr,
}
use satosa_saml2spid.Dom.Tree.{Node, el, text_nodes}
use satosa_saml2spid.Dom.Page.{El, Page}
use satosa_saml2spid.Wallet.Grid.{show_state, set_wallet_grid_error, wallet_error_message}
use satosa_saml2spid.Eid.Bundle.{Store}
use satosa_saml2spid.Wallet.Order.{Wallet}
use satosa_saml2spid.Wallet.Cards.{Browser}
use satosa_saml2spid.Wallet.Load.{Reply, Site, wallets_of, show_failure, waiting_at}
use satosa_saml2spid.Wallet.Load.Laws.{
  IsIdle, setup_back_link-grid, caught-IsIdle, show_failure-IsIdle, show_wallets-Idle,
}
use satosa_saml2spid.Wallet.Session.{
  get_wallet_resource, Event, reloaded, answered, Load, Visit, rest_of_load, end_load, on_answer,
  begin_load, step, run, open_page,
}

state_of-IsIdle : {m : Ended Site} → Ends IsIdle IsIdle m → IsIdle (state_of m)
state_of-IsIdle (at_done s h) = h
state_of-IsIdle (at_threw e s h) = h

end_load-IsIdle :
    (is_first : Bool) (m : Ended Site) → Ends IsIdle IsIdle m → IsIdle (end_load is_first m)
unfolding end_load
end_load-IsIdle true m h = caught-IsIdle m h
end_load-IsIdle false m h = state_of-IsIdle h

module _ (b : Browser) (locale_compare : String → String → ℤ) (print : ℕ → String) (store : Store)
    (base_path query : String) where
  rest-Ends :
      (load : Load) (o : Option (List Wallet)) (draw : ℕ → ℕ) (language : String) (s : Site)
      → Ends IsIdle IsIdle
          (rest_of_load b locale_compare print store base_path query load o draw language s)
  unfolding rest_of_load
  rest-Ends load none draw language s = at_done _ (show_failure-IsIdle load.resource query s)
  rest-Ends load (some ws) draw language s =
      show_wallets-Idle b locale_compare print draw (get_wallet_resource store language) base_path
        query ws s

  -- A load is under way, or the grid is not busy.
  abbrev Waits : Visit → Type 0
  Waits v = (length v.waiting ≢ 0) ⊎ IsIdle v.site

  begin-Waits :
      (is_first : Bool) (v : Visit)
      → Waits (begin_load b locale_compare print store base_path query is_first v)
  unfolding begin_load
  begin-Waits is_first v = inl (λ e. absurd (omega (arith, length-append {0} v.waiting _)))

  step-Waits :
      (e : Event) (v : Visit)
      → Waits v
      → Waits (step b locale_compare print store base_path query e v)
  unfolding step
  step-Waits (reloaded language) v h = begin-Waits false (record v { language = language })
  step-Waits (answered i reply draw) v h = elim (Option-cases (get_elem? v.waiting i)) [
    | inl e ↦ rw (e, on_answer) h
    | inr (load, e) ↦
        rw (e, on_answer)
          (inr (
            end_load-IsIdle load.is_first _
              (rest-Ends load (wallets_of reply) draw v.language v.site)))
  ]

  run-Waits :
      (es : List Event) (v : Visit)
      → Waits v
      → Waits (run b locale_compare print store base_path query es v)
  unfolding run
  run-Waits [] v h = h
  run-Waits (e ∷ es) v h =
      run-Waits es (step b locale_compare print store base_path query e v) (step-Waits e v h)

  -- Once every load that was begun has been answered, in whatever order and whatever the fetches came
  -- to, the grid is not busy, if the page has one.
  pub answered-IsIdle :
      (es : List Event) (v : Visit)
      → (run b locale_compare print store base_path query es
          (open_page b locale_compare print store base_path query v)).waiting
        ≡ []
      → IsIdle
          (run b locale_compare print store base_path query es
            (open_page b locale_compare print store base_path query v)).site
  unfolding open_page
  answered-IsIdle es v e =
      elim (run-Waits es (open_page b locale_compare print store base_path query v)
        (begin-Waits true (record v { site = waiting_at v.site }))) [
          | inl n ↦ absurd (n (ap length e))
          | inr h ↦ h
        ]

-- The error message, as the content of the grid.
abbrev pub alert : String → List Node
alert message =
    el "p"
      (("class", "it-wallet-list-state it-wallet-list-state--error col-12 text-center")
        ∷ ("role", "alert")
        ∷ [])
      (text_nodes message)
    ∷ []

abbrev pub content_of : Option El → Option (List Node)
content_of none = none
content_of (some e) = some e.content

set_wallet_grid_error-content :
    (message : String) (page : Page) (g : El)
    → page "#wallet-grid" ≡ some g
    → content_of (set_wallet_grid_error message page "#wallet-grid") ≡ some (alert message)
unfolding set_wallet_grid_error show_state
set_wallet_grid_error-content message page g h = rw h refl

end_load-done : (is_first : Bool) (s : Site) → end_load is_first (done s) ≡ s
unfolding end_load
end_load-done true s = refl
end_load-done false s = refl

-- A load whose fetch fails puts the error message of its beginning in the place of the cards and hides
-- the controls, whatever a load that was begun later has shown in the meantime, and says nothing to the
-- controls, which still count the wallets of that load as shown.
pub late_failure :
    (b : Browser) (locale_compare : String → String → ℤ) (print : ℕ → String) (store : Store)
    (base_path query : String) (i : ℕ) (reply : Reply) (draw : ℕ → ℕ) (v : Visit) (load : Load)
    (g : El)
    → get_elem? v.waiting i ≡ some load
    → wallets_of reply ≡ none
    → v.site.page "#wallet-grid" ≡ some g
    → let s = (step b locale_compare print store base_path query (answered i reply draw) v).site in
      (content_of (s.page "#wallet-grid") ≡ some (alert (wallet_error_message load.resource)))
      × (s.controls_hidden ≡ true)
      × (s.actions_hidden ≡ true)
      × (s.controls ≡ v.site.controls)
unfolding step rest_of_load show_failure
late_failure b locale_compare print store base_path query i reply draw v load g e n h =
    let ended = end_load-done load.is_first (show_failure load.resource query v.site) in
    let shown =
      ap content_of (
        setup_back_link-grid query
          (set_wallet_grid_error (wallet_error_message load.resource) v.site.page))
      ∙ set_wallet_grid_error-content (wallet_error_message load.resource) v.site.page g h in
    rw (e, on_answer) (rw n (rw ended (shown, refl, refl, refl)))
