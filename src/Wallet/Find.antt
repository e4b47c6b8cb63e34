-- ===== src/Wallet/Find.antt =====
-- `filterWallets`, and the message that tells how many wallets it found. `toLowerCase` is a parameter.
pub mod Laws
use satosa_saml2spid.Base.{
  ℕ, zero, suc, String, ◌<>◌, Bool, true, not, ◌||◌, Option, List, ◌==◌, if◌then◌else◌, is_truthy,
  trim, starts_with, includes, filter,
}
use satosa_saml2spid.Eid.Bundle.{Bundle, read, or_else, text_of}
use satosa_saml2spid.Eid.Document.{first_of_two}
use satosa_saml2spid.Wallet.Order.{Wallet}

-- `!query || !query.trim()`.
unfoldable pub is_blank : String → Bool
is_blank query = not (is_truthy query) || not (is_truthy (trim query))

module _ (to_lower : String → String) where
  unfoldable pub matches_like : Option String → String → Bool
  unfolding is_blank
  matches_like text query =
      if is_blank query then true else includes (to_lower (text_of text)) (to_lower (trim query))

  unfoldable pub filter_wallets : List Wallet → String → List Wallet
  unfolding is_blank matches_like
  filter_wallets wallets query =
      let q = to_lower (trim query) in
      if is_blank query
      then wallets
      else filter (λ w. matches_like w.id q || matches_like w.name q) wallets

-- `s.slice(p.length)`, for a text that starts with `p`.
unfoldable pub drop_prefix : String → String → String
drop_prefix s String.[] = s
drop_prefix String.[] (String.◌∷◌ d p) = ""
drop_prefix (String.◌∷◌ c s) (String.◌∷◌ d p) = drop_prefix s p

-- `s.replace(pattern, by)`, with a text as the pattern: its first occurrence, if it has one.
unfoldable pub replace_first : String → String → String → String
unfolding starts_with drop_prefix
replace_first String.[] pattern by = if starts_with "" pattern then by else ""
replace_first (String.◌∷◌ c s) pattern by =
    let rest = replace_first s pattern by in
    if starts_with (String.◌∷◌ c s) pattern
    then by <> drop_prefix (String.◌∷◌ c s) pattern
    else String.◌∷◌ c rest

-- `walletResultsStatusMessage`; `print` is `String(count)`, digits without a `$`.
unfoldable pub wallet_results_status_message : (ℕ → String) → Bundle → ℕ → String → String
unfolding replace_first
wallet_results_status_message print r zero context =
    or_else (first_of_two (read r "search" "results_none") (read r "search" "no_results"))
      "Nessun risultato trovato"
wallet_results_status_message print r (suc k) context =
    if context == "clear"
    then replace_first
        (or_else (read r "search" "results_reset") "Ricerca azzerata, {{count}} wallet disponibili")
        "{{count}}" (print (suc k))
    else replace_first (template k) "{{count}}" (print (suc k))
  where
    template : ℕ → String
    template zero = or_else (read r "search" "results_one") "{{count}} risultato trovato"
    template (suc n) = or_else (read r "search" "results_many") "{{count}} risultati trovati"

-- `announceWalletStatusMessage`: what the live region says, where there is one. Its frame is taken at once.
unfoldable pub announce_wallet_status_message : Bool → String → String → String
announce_wallet_status_message has_status message old = if has_status then message else old
