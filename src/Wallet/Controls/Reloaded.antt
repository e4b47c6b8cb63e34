-- ===== src/Wallet/Controls/Reloaded.antt =====
-- The controls after several loads. What a load sets as a property (`oninput`, `onchange`, `onclick`)
-- replaces that of the load before it; what it adds (`submit`, the `click` of an item) stays beside it,
-- and runs in the order of the loads, each with the list and the applied query of its own load.
pub mod Drawn
pub mod Overwrites
pub mod Laws
mod Tests
use satosa_saml2spid.Base.{ℕ, String, ℤ, List, [], ◌∷◌, ◌++◌, text_or}
use satosa_saml2spid.Eid.Bundle.{Bundle}
use satosa_saml2spid.Wallet.Order.{Wallet}
use satosa_saml2spid.Wallet.Controls.{
  Controls, Event, typed, submitted, cleared, selected, item_clicked, set_sort_value, on_input,
  on_submit, on_clear, on_change, start,
}

-- What the listeners of one load share: `defaultWalletOrder` and `appliedQuery`.
pub record Closure : Type 0 where
  pub order : List Wallet
  pub applied_query : String

-- The elements of the page, whose applied query has no meaning, and the closures of the loads.
pub record Shared : Type 0 where
  pub controls : Controls
  pub older : List Closure
  pub newest : Closure

-- The page as a listener sees it.
abbrev pub seen : Closure → Controls → Controls
seen k c = record c { applied_query = k.applied_query }

abbrev pub Listener : Type 0
Listener = List Wallet → Controls → Controls

unfoldable pub kept : Listener → Closure → Controls → Closure
kept f k c = record k { applied_query = (f k.order (seen k c)).applied_query }

-- A listener that every load has added: the elements, and the closures, after those of the older loads.
unfoldable pub page_after : Listener → List Closure → Controls → Controls
page_after f [] c = c
page_after f (k ∷ ks) c = page_after f ks (f k.order (seen k c))

unfoldable pub closures_after : Listener → List Closure → Controls → List Closure
unfolding kept
closures_after f [] c = []
closures_after f (k ∷ ks) c = kept f k c ∷ closures_after f ks (f k.order (seen k c))

-- A listener that the last load alone has.
unfoldable pub by_newest : Listener → Shared → Shared
unfolding kept
by_newest f s = record s {
  controls = f s.newest.order (seen s.newest s.controls);
  newest = kept f s.newest s.controls;
}

unfoldable pub by_all : Listener → Shared → Shared
unfolding by_newest page_after closures_after
by_all f s = by_newest f (record s {
  controls = page_after f s.older s.controls;
  older = closures_after f s.older s.controls;
})

module _ (to_lower : String → String) (locale_compare : String → String → ℤ) (print : ℕ → String)
    (r : Bundle) where
  unfoldable pub step_shared : Event → Shared → Shared
  unfolding by_all by_newest on_input on_submit on_clear on_change set_sort_value
  step_shared (typed s) = by_newest (λ order. on_input to_lower locale_compare print r order s)
  step_shared submitted = by_all (on_submit to_lower locale_compare print r)
  step_shared cleared = by_newest (on_clear to_lower locale_compare print r)
  step_shared (selected v) = by_newest (λ order. on_change to_lower locale_compare print r order v)
  step_shared (item_clicked v) =
      by_all (λ order. set_sort_value to_lower locale_compare print r order (text_or v "default"))

  unfoldable pub run_shared : List Event → Shared → Shared
  unfolding step_shared
  run_shared [] s = s
  run_shared (e ∷ es) s = run_shared es (step_shared e s)

  -- One more load: its listeners come last, and its applied query is empty.
  unfoldable pub load_again : List Wallet → Shared → Shared
  unfolding start
  load_again order s = record {
    controls = start to_lower locale_compare print r order s.controls;
    older = s.older ++ (s.newest ∷ []);
    newest = record { order = order; applied_query = "" };
  }
