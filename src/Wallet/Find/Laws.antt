-- ===== src/Wallet/Find/Laws.antt =====
-- What the search shows.
use satosa_saml2spid.Base.{
  String, ◌≡◌, refl, ap, ◌∙◌, Bool, false, ◌||◌, Option, List, [], ◌∷◌, is_truthy, trim, trim_twice,
  includes, filter, arith,
}
use satosa_saml2spid.Eid.Bundle.{text_of}
use satosa_saml2spid.Wallet.Order.{Wallet}
use satosa_saml2spid.Wallet.Find.{is_blank, matches_like, filter_wallets}

filter_same {ℓ} :
    {A : Type ℓ} (p q : A → Bool) (xs : List A) → ((a : A) → p a ≡ q a) → filter p xs ≡ filter q xs
filter_same p q [] h = refl
filter_same p q (x ∷ xs) h = rw (h x, filter_same p q xs h) refl

module _ (to_lower : String → String)
    (lower_twice : (s : String) → to_lower (to_lower s) ≡ to_lower s)
    (lower-trim : (s : String) → trim (to_lower s) ≡ to_lower (trim s))
    (lower-is_truthy : (s : String) → is_truthy (to_lower s) ≡ is_truthy s) where
  -- The query as it is looked for.
  abbrev pub needle : String → String
  needle query = to_lower (trim query)

  needle_normal : (query : String) → to_lower (trim (needle query)) ≡ needle query
  needle_normal query =
      ap to_lower (lower-trim (trim query) ∙ ap to_lower (trim_twice query))
      ∙ lower_twice (trim query)

  needle-is_blank : (query : String) → is_blank query ≡ false → is_blank (needle query) ≡ false
  unfolding is_blank
  needle-is_blank query h = ground (
    arith,
    lower-is_truthy (trim query),
    lower-is_truthy (trim (trim query)),
    lower-trim (trim query),
    trim_twice query,
  )

  matches_like-needle :
      (field : Option String) (query : String)
      → is_blank query ≡ false
      → matches_like to_lower field (needle query)
        ≡ includes (to_lower (text_of field)) (needle query)
  unfolding matches_like
  matches_like-needle field query h =
      rw (needle-is_blank query h) (ap (includes (to_lower (text_of field))) (needle_normal query))

  -- Where lowering is idempotent, commutes with trimming and empties no text, a query that is not blank finds
  -- exactly the wallets of which the identifier or the name, in lower case, has the trimmed query
  -- in lower case as a part, in their order.
  pub filter_wallets_lem :
      (wallets : List Wallet) (query : String)
      → is_blank query ≡ false
      → filter_wallets to_lower wallets query
        ≡ filter
            (λ w.
              includes (to_lower (text_of w.id)) (needle query)
              || includes (to_lower (text_of w.name)) (needle query))
            wallets
  unfolding filter_wallets
  filter_wallets_lem wallets query h = rw h (
      filter_same _ _ wallets
        λ w. rw (matches_like-needle w.id query h, matches_like-needle w.name query h) refl)
