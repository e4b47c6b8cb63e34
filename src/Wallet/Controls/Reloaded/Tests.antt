-- ===== src/Wallet/Controls/Reloaded/Tests.antt =====
-- A search after two loads.
use satosa_saml2spid.Base.{refl, ◌≡◌, false, List, [], ◌∷◌}
use satosa_saml2spid.Wallet.Controls.{Event, typed, submitted, item_clicked, all_drawn, run}
use satosa_saml2spid.Wallet.Controls.Reloaded.{Shared, run_shared}
use satosa_saml2spid.Wallet.Controls.Reloaded.Laws.{view, run_shared-last}
use satosa_saml2spid.Wallet.Tests.{
  lower, compare_lengths, print_count, no_texts, two_wallets, lost, before_load,
}

abbrev shared : Shared
shared = record {
  controls = before_load "" false;
  older = record { order = lost ∷ []; applied_query = "a" } ∷ [];
  newest = record { order = two_wallets; applied_query = "" };
}

abbrev events : List Event
events = typed "b" ∷ submitted ∷ item_clicked "za" ∷ []

run_shared-last_example :
    view (run_shared lower compare_lengths print_count no_texts events shared)
    ≡ run lower compare_lengths print_count no_texts two_wallets events (view shared)
unfolding all_drawn
run_shared-last_example =
    run_shared-last lower compare_lengths print_count no_texts events shared refl
