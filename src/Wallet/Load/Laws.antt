-- ===== src/Wallet/Load/Laws.antt =====
-- Once the page has loaded, the grid is not busy, whatever the fetch came to and whatever the list is.
use satosa_saml2spid.Base.{
  ℕ, String, ℤ, ◌≡◌, refl, ap, ◌∙◌, Bool, true, false, Option, none, some, List, [], ◌∷◌, ◌++◌,
  Result, ok, err, eqb, length, find_key, Bool-cases, inl, inr, Ended, Ends-and_then, done, threw,
  and_then, try_write, state_of, Ends, at_done, at_threw,
}
use satosa_saml2spid.Dom.Tree.{Node}
use satosa_saml2spid.Dom.Page.{El, set_attr, Page, on_el, update}
use satosa_saml2spid.Dom.Page.Laws.{find_key-set_entry_self}
use satosa_saml2spid.Eid.Bundle.{Bundle}
use satosa_saml2spid.Wallet.Order.Laws.{shuffle_wallets-Perm}
use satosa_saml2spid.Wallet.Order.{Wallet}
use satosa_saml2spid.Wallet.Cards.{Browser, create_wallet_card, append_wallets, render_wallets}
use satosa_saml2spid.Wallet.Controls.{sorted_wallets, apply_filters_and_sort}
use satosa_saml2spid.Wallet.Document.{setup_back_link}
use satosa_saml2spid.Wallet.Grid.{wallet_error_message, show_state, set_wallet_grid_error}
use satosa_saml2spid.Wallet.Load.{
  Reply, Site, wallets_of, with_grid, render, show_failure, ready_for, show_order, show_wallets,
  fetched, load_it_wallet_page, caught, start_page, waiting_at,
}

-- A grid, if there is one, has `aria-busy="false"`.
abbrev pub Idle : Option El → Type 0
Idle none = Unit
Idle (some e) = find_key "aria-busy" e.attrs ≡ some "false"

abbrev pub IsIdle : Site → Type 0
IsIdle s = Idle (s.page "#wallet-grid")

message-Idle :
    (class role message : String) (o : Option El)
    → Idle (on_el (show_state "false" class role message) o)
unfolding show_state set_attr
message-Idle class role message none = tt
message-Idle class role message (some e) = find_key-set_entry_self "aria-busy" "false" e.attrs

error-Idle :
    (message : String) (page : Page) → Idle (set_wallet_grid_error message page "#wallet-grid")
unfolding set_wallet_grid_error update
error-Idle message page =
    message-Idle "it-wallet-list-state it-wallet-list-state--error" "alert" message
      (page "#wallet-grid")

pub setup_back_link-grid :
    (query : String) (page : Page) → setup_back_link query page "#wallet-grid" ≡ page "#wallet-grid"
unfolding setup_back_link update
setup_back_link-grid query page = refl

append-step :
    (b : Browser) (r : Bundle) (base_path : String) (ws : List Wallet) (m : Result Node) (grid : El)
    → ((g : El) → (state_of (append_wallets b r base_path ws g)).attrs ≡ g.attrs)
    → (state_of (
        and_then
          (try_write m (λ n e. record e { content = e.content ++ (n ∷ []) }) grid)
          (append_wallets b r base_path ws))).attrs
      ≡ grid.attrs
unfolding and_then try_write
append-step b r base_path ws (err message) grid k = refl
append-step b r base_path ws (ok n) grid k = k (record grid { content = grid.content ++ (n ∷ []) })

append-attrs :
    (b : Browser) (r : Bundle) (base_path : String) (ws : List Wallet) (grid : El)
    → (state_of (append_wallets b r base_path ws grid)).attrs ≡ grid.attrs
unfolding append_wallets and_then try_write
append-attrs b r base_path [] grid = refl
append-attrs b r base_path (w ∷ ws) grid =
    append-step b r base_path ws (create_wallet_card b r base_path w) grid
      (append-attrs b r base_path ws)

render_wallets-Idle :
    (b : Browser) (r : Bundle) (base_path : String) (ws : List Wallet) (grid : El)
    → find_key "aria-busy" (state_of (render_wallets b r base_path ws grid).0).attrs ≡ some "false"
unfolding render_wallets set_attr
render_wallets-Idle b r base_path ws grid = elim (Bool-cases (eqb (length ws) 0)) [
  | inl y ↦ rw y (find_key-set_entry_self "aria-busy" "false" grid.attrs)
  | inr n ↦ rw n (
      ap (find_key "aria-busy") (append-attrs b r base_path ws _)
      ∙ find_key-set_entry_self "aria-busy" "false" grid.attrs)
]

with_grid-Idle :
    (site : Site) (single : Bool) (m : Ended El)
    → find_key "aria-busy" (state_of m).attrs ≡ some "false"
    → Ends IsIdle IsIdle (with_grid site single m)
unfolding with_grid update
with_grid-Idle site single m h = by_end m h
  where
    placed :
        (g : El)
        → find_key "aria-busy" g.attrs ≡ some "false"
        → (o : Option El) → Idle (on_el (λ e. g) o)
    placed g h none = tt
    placed g h (some e) = h

    by_end :
        (m : Ended El)
        → find_key "aria-busy" (state_of m).attrs ≡ some "false"
        → Ends IsIdle IsIdle (with_grid site single m)
    by_end (done g) h = at_done _ (placed g h (site.page "#wallet-grid"))
    by_end (threw message g) h = at_threw message _ (placed g h (site.page "#wallet-grid"))

render-Idle :
    (b : Browser) (r : Bundle) (base_path : String) (ws : List Wallet) (site : Site) (o : Option El)
    → site.page "#wallet-grid" ≡ o
    → Ends IsIdle IsIdle (render b r base_path ws site)
unfolding render
render-Idle b r base_path ws site none e = rw (e, render) (at_done site (rw e tt))
render-Idle b r base_path ws site (some grid) e =
    let m = render_wallets b r base_path ws grid in
    rw (e, render) (with_grid-Idle site m.1 m.0 (render_wallets-Idle b r base_path ws grid))

pub caught-IsIdle : {Q : Site → Type 0} (m : Ended Site) → Ends IsIdle Q m → IsIdle (caught m)
unfolding caught
caught-IsIdle (done s) (at_done s' h) = h
caught-IsIdle (threw message s) h =
    error-Idle "Impossibile caricare l'elenco wallet. Ricarica la pagina." s.page

pub show_failure-IsIdle :
    (r : Bundle) (query : String) (site : Site) → IsIdle (show_failure r query site)
unfolding show_failure
show_failure-IsIdle r query site = error-Idle (wallet_error_message r) site.page

module _ (b : Browser) (locale_compare : String → String → ℤ) (print : ℕ → String) (draw : ℕ → ℕ)
    (r : Bundle) (base_path query : String) where
  show_order-Idle :
      (order : List Wallet) (site : Site)
      → Ends IsIdle IsIdle (show_order b locale_compare print draw r base_path query order site)
  unfolding show_order
  show_order-Idle order site =
      let ready = ready_for b locale_compare print draw r base_path query order site in
      let applied = record ready {
        controls =
            apply_filters_and_sort b.to_lower locale_compare print r order none ready.controls;
      } in
      Ends-and_then {f = λ s. done (record s { page = setup_back_link query s.page })}
        (render-Idle b r base_path
          (sorted_wallets b.to_lower locale_compare print r order ready.controls) applied
          (applied.page "#wallet-grid") refl)
        (λ s h. at_done _ h)

  pub show_wallets-Idle :
      (ws : List Wallet) (site : Site)
      → Ends IsIdle IsIdle (show_wallets b locale_compare print draw r base_path query ws site)
  unfolding show_wallets
  show_wallets-Idle ws site =
      let (order, e, p) = shuffle_wallets-Perm draw ws in
      rw (show_wallets, e) (show_order-Idle order site)

  fetched-Idle :
      (o : Option (List Wallet)) (site : Site)
      → Ends IsIdle IsIdle (fetched b locale_compare print draw r base_path query o site)
  unfolding fetched
  fetched-Idle none site = at_done _ (show_failure-IsIdle r query site)
  fetched-Idle (some ws) site = show_wallets-Idle ws site

  load-Idle :
      (reply : Reply) (site : Site)
      → Ends IsIdle IsIdle
          (load_it_wallet_page b locale_compare print draw r base_path query reply site)
  unfolding load_it_wallet_page
  load-Idle reply site = fetched-Idle (wallets_of reply) _

  -- Once the page has loaded, its grid is not busy, if it has one: whatever the fetch came to, whatever
  -- the list is, and also where a wallet without an address ends the load with an exception.
  pub start_page-IsIdle :
      (ready : Bool) (reply : Reply) (site : Site)
      → IsIdle (start_page b locale_compare print draw r base_path query ready reply site)
  unfolding start_page
  start_page-IsIdle true reply site =
      caught-IsIdle
        (load_it_wallet_page b locale_compare print draw r base_path query reply (waiting_at site))
        (load-Idle reply (waiting_at site))
  start_page-IsIdle false reply site =
      caught-IsIdle {Q = λ s. Unit} (threw "i18next" (waiting_at site))
        (at_threw "i18next" (waiting_at site) tt)
