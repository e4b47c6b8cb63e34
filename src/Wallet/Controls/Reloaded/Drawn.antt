-- ===== src/Wallet/Controls/Reloaded/Drawn.antt =====
-- Which lists of the wallet page can be drawn, and what stays of two renderings in turn.
use satosa_saml2spid.Base.{
  ◌&&◌, ◌==◌, filter, arith, not, Bool, true, false, if◌then◌else◌, String, ℤ, ◌≡◌, refl, ap, ◌∙◌,
  List, [], ◌∷◌,
}
use satosa_saml2spid.Wallet.Order.{Wallet, has_uri, insert, sort, by_name, sort_wallets}
use satosa_saml2spid.Wallet.Find.{is_blank, filter_wallets}
use satosa_saml2spid.Wallet.Controls.{all_drawn}

pub unless {ℓ} : {A : Type ℓ} (b : Bool) (x y : A) → b ≡ true → (if not b then x else y) ≡ y
unless true x y e = refl
unless false x y e = cc

pub when {ℓ} : {A : Type ℓ} (b : Bool) (x y : A) → b ≡ false → (if not b then x else y) ≡ x
when true x y e = cc
when false x y e = refl

all_drawn-insert :
    (compare : Wallet → Wallet → ℤ) (x : Wallet) (ys : List Wallet)
    → all_drawn (insert compare x ys) ≡ (has_uri x && all_drawn ys)
unfolding insert all_drawn
all_drawn-insert compare x [] = refl
all_drawn-insert compare x (y ∷ ys) = ground (arith, all_drawn-insert compare x ys)

all_drawn-sort :
    (compare : Wallet → Wallet → ℤ) (xs : List Wallet) → all_drawn (sort compare xs) ≡ all_drawn xs
unfolding sort all_drawn
all_drawn-sort compare [] = refl
all_drawn-sort compare (x ∷ xs) =
    all_drawn-insert compare x (sort compare xs)
    ∙ ap (λ b. has_uri x && b) (all_drawn-sort compare xs)

all_drawn-filter :
    (p : Wallet → Bool) (xs : List Wallet) → all_drawn xs ≡ true → all_drawn (filter p xs) ≡ true
unfolding all_drawn
all_drawn-filter p [] h = refl
all_drawn-filter p (x ∷ xs) h = ground (arith, all_drawn-filter p xs)

if-drawn :
    (b : Bool) (xs ys : List Wallet)
    → all_drawn xs ≡ true
    → all_drawn ys ≡ true
    → all_drawn (if b then xs else ys) ≡ true
if-drawn true xs ys h k = h
if-drawn false xs ys h k = k

-- What is searched and sorted of a list can be drawn where the list can.
pub all_drawn-sorted :
    (to_lower : String → String) (locale_compare : String → String → ℤ) (order : List Wallet)
    → all_drawn order ≡ true
    → (q v : String)
    → all_drawn (sort_wallets locale_compare (filter_wallets to_lower order q) v) ≡ true
unfolding sort_wallets filter_wallets
all_drawn-sorted to_lower locale_compare order h q v =
    let found = filter_wallets to_lower order q in
    let k = if-drawn (is_blank q) order _ h (all_drawn-filter _ order h) in
    if-drawn (v == "az") _ _ (all_drawn-sort (by_name locale_compare) found ∙ k)
      (if-drawn (v == "za") _ _ (all_drawn-sort (λ a b. by_name locale_compare b a) found ∙ k) k)

-- An element that is there keeps nothing of what was written before; one that is not keeps what it had.
pub overwritten {ℓ} :
    {A : Type ℓ} (b : Bool) (x y z : A)
    → (if b then x else (if b then y else z)) ≡ (if b then x else z)
overwritten true x y z = refl
overwritten false x y z = refl
