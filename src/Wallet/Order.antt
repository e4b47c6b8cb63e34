-- ===== src/Wallet/Order.antt =====
-- `shuffleWallets` and `sortWallets`. The draws of `Math.random` and the comparison of names by
-- `localeCompare` are parameters.
pub mod Laws
use satosa_saml2spid.Base.{
  ℕ, zero, suc, ◌+◌, ◌-◌, ◌%◌, String, Bool, true, false, Option, none, some, ℤ, pos, negsuc, List,
  [], ◌∷◌, ◌==◌, if◌then◌else◌, length, get_elem?, set,
}
use satosa_saml2spid.Eid.Bundle.{text_of}

-- An entry of `immediate_subordinate_entities`.
pub record Wallet : Type 0 where
  pub id : Option String
  pub name : Option String
  pub uri : Option String
  pub logo_uri : Option String
  pub description : Option String
  pub how_to_get_url : Option String

-- `[a[i], a[j]] = [a[j], a[i]]`. A position beyond the array, which would put `undefined` into it, gives
-- no list.
unfoldable pub swap {ℓ} : {A : Type ℓ} → List A → ℕ → ℕ → Option (List A)
swap xs i j = elim (get_elem? xs i) [
  | none ↦ none
  | some a ↦ elim (get_elem? xs j) [ none ↦ none | some b ↦ some (set (set xs i b) j a) ]
]

-- The loop from `i` down to 1. `Math.floor(Math.random() * (i + 1))` is any number below `i + 1`.
unfoldable pub shuffle_loop {ℓ} : {A : Type ℓ} → (ℕ → ℕ) → ℕ → List A → Option (List A)
unfolding swap
shuffle_loop draw zero xs = some xs
shuffle_loop draw (suc i) xs = elim (swap xs (suc i) (draw (suc i) % (suc i + 1))) [
  | none ↦ none
  | some ys ↦ shuffle_loop draw i ys
]

unfoldable pub shuffle_wallets {ℓ} : {A : Type ℓ} → (ℕ → ℕ) → List A → Option (List A)
unfolding shuffle_loop
shuffle_wallets draw xs = shuffle_loop draw (length xs - 1) xs

-- An entry with an address: for one without, `buildWalletUri` throws.
abbrev pub has_uri : Wallet → Bool
has_uri w = elim w.uri [ none ↦ false | some uri ↦ true ]

abbrev pub is_pos : ℤ → Bool
is_pos (pos zero) = false
is_pos (pos (suc a)) = true
is_pos (negsuc a) = false

-- `sort`, which keeps the order of what compares as equal: an element goes before the first one
-- that it does not exceed.
module _ {ℓ} {A : Type ℓ} (compare : A → A → ℤ) where
  unfoldable pub insert : A → List A → List A
  insert x [] = x ∷ []
  insert x (y ∷ ys) = if is_pos (compare x y) then y ∷ insert x ys else x ∷ y ∷ ys

  unfoldable pub sort : List A → List A
  sort [] = []
  sort (x ∷ xs) = insert x (sort xs)

module _ (locale_compare : String → String → ℤ) where
  abbrev pub by_name : Wallet → Wallet → ℤ
  by_name a b = locale_compare (text_of a.name) (text_of b.name)

  unfoldable pub sort_wallets : List Wallet → String → List Wallet
  unfolding sort
  sort_wallets wallets sort_value =
      if sort_value == "az"
      then sort by_name wallets
      else if sort_value == "za"
      then sort (λ a b. by_name b a) wallets
      else wallets
