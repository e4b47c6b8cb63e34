-- ===== src/Wallet/Session/Tests.antt =====
-- Two loads of the wallet page, whose fetches answer in the other order.
use satosa_saml2spid.Base.{if◌then◌else◌, ◌==◌, ℕ, ◌≡◌, refl, true, none, some, List, [], ◌∷◌}
use satosa_saml2spid.Eid.Bundle.{Store}
use satosa_saml2spid.Wallet.Load.{rejected, data_of, wallets_of}
use satosa_saml2spid.Wallet.Load.Laws.{IsIdle}
use satosa_saml2spid.Wallet.Tests.{
  browser, compare_lengths, print_count, no_texts, two_wallets, site,
}
use satosa_saml2spid.Wallet.Session.{Event, reloaded, answered, Load, Visit, step, run, open_page}
use satosa_saml2spid.Wallet.Session.Laws.{answered-IsIdle}

abbrev store : Store
store = record {
  resource_bundle = λ lang. none;
  data_by_language = λ lang. if lang == "it" then some no_texts else none;
  store_data = λ lang. none;
}

abbrev visit : Visit
visit = record { site = site; language = "it"; waiting = [] }

abbrev first_draw : ℕ → ℕ
first_draw i = 0

-- The second load answers with a list, and then the fetch of the first one fails.
abbrev out_of_order : List Event
out_of_order =
    reloaded "en"
    ∷ answered 1 (data_of (some two_wallets)) first_draw
    ∷ answered 0 rejected first_draw
    ∷ []

none_waiting :
    (run browser compare_lengths print_count store "/" "" out_of_order
      (open_page browser compare_lengths print_count store "/" "" visit)).waiting
    ≡ []
unfolding run step open_page
none_waiting = refl

answered-IsIdle_example :
    IsIdle
      (run browser compare_lengths print_count store "/" "" out_of_order
        (open_page browser compare_lengths print_count store "/" "" visit)).site
answered-IsIdle_example =
    answered-IsIdle browser compare_lengths print_count store "/" "" out_of_order visit none_waiting

abbrev load : Load
load = record { resource = no_texts; is_first = true }

abbrev waiting : Visit
waiting = record visit { waiting = load ∷ [] }

rejected_has_none : wallets_of rejected ≡ none
unfolding wallets_of
rejected_has_none = refl
