-- ===== src/Wallet/Cards/Laws.antt =====
-- The grid has one card for each wallet, up to the first that has no address.
use satosa_saml2spid.Base.{
  sym, append-nil, append_assoc, ℕ, suc, ◌+◌, String, ◌<>◌, ◌≡◌, refl, ap, ◌∙◌, Bool, true, false,
  Option, none, some, Result, ok, ◌>>=◌, done, threw, and_then, try_write, List, [], ◌∷◌, ◌++◌,
  if◌then◌else◌, length, length-append, All, includes, arith, eqb, find_key,
}
use satosa_saml2spid.Dom.Tree.{Node}
use satosa_saml2spid.Dom.Page.{El, set_attr}
use satosa_saml2spid.Dom.Page.Laws.{find_key-set_entry_self}
use satosa_saml2spid.Eid.Bundle.{Bundle}
use satosa_saml2spid.Wallet.Order.{Wallet}
use satosa_saml2spid.Wallet.Cards.{
  Browser, build_wallet_uri, return_url, entity_id, create_wallet_card, append_wallets,
  render_wallets,
}

abbrev pub has_address : Wallet → Bool
has_address w = elim w.uri [ none ↦ false | some u ↦ true ]

not_zero : (n : ℕ) → eqb (suc n) 0 ≡ false
not_zero n = ground arith

else_of {ℓ} :
    {A : Type ℓ} {c : Bool} (x : A) {y z : A} → c ≡ false → y ≡ z → (if c then x else y) ≡ z
else_of x n e = rw n e

ok_bind :
    (m : Result String) (u : String) (k : String → Node)
    → m ≡ ok u
    → (n : Node) × ((m >>= λ a. ok (k a)) ≡ ok n)
unfolding ◌>>=◌
ok_bind m u k e = (k u, rw e refl)

module _ (b : Browser) where
  build_ok :
      (o : Option String) (uri : String)
      → o ≡ some uri
      → (u : String) × (build_wallet_uri b o ≡ ok u)
  unfolding build_wallet_uri
  build_ok none uri e = cc
  build_ok (some s) uri e = by_parse (b.with_params s (return_url b) (entity_id b s))
    where
      by_parse :
          (p : Option String)
          → (u : String) × ((elim p [
            | none ↦ ok (
                s
                <> (if includes s "?" then "&" else "?")
                <> "return="
                <> b.encode_uri_component (return_url b)
                <> "&entityID="
                <> b.encode_uri_component (entity_id b s))
            | some address ↦ ok address
          ])
              ≡ ok u)
      by_parse none = (_, refl)
      by_parse (some a) = (a, refl)

  -- A wallet with an address has a card, and one without throws.
  card_of :
      (r : Bundle) (base_path : String) (w : Wallet) (uri : String)
      → w.uri ≡ some uri
      → (n : Node) × (create_wallet_card b r base_path w ≡ ok n)
  unfolding create_wallet_card
  card_of r base_path w uri h =
      let found = build_ok w.uri uri h in ok_bind (build_wallet_uri b w.uri) found.0 _ found.1

  -- The grid has as many new nodes as there are wallets.
  append_wallets-done :
      (r : Bundle) (base_path : String) (ws : List Wallet) (grid : El)
      → All (λ w. (uri : String) × (w.uri ≡ some uri)) ws
      → (g : El) × (append_wallets b r base_path ws grid ≡ done g)
        × (length g.content ≡ length grid.content + length ws)
        × (g.attrs ≡ grid.attrs)
  unfolding append_wallets and_then try_write
  append_wallets-done r base_path [] grid h = (grid, refl, ground arith, refl)
  append_wallets-done r base_path (w ∷ ws) grid ((uri, e), h) =
      let made = card_of r base_path w uri e in
      let grown = record grid { content = grid.content ++ (made.0 ∷ []) } in
      let rest = append_wallets-done r base_path ws grown h in
      (
        rest.0,
        rw made.1 rest.1,
        rest.2 ∙ ground (arith, length-append grid.content (made.0 ∷ [])),
        rest.3,
      )

  -- With an address for each wallet, the rendering ends with the grid not busy and with as many nodes
  -- in it as there are wallets, or the one that says so where there is none; the class for a single
  -- wallet is on exactly where there is one.
  pub render_wallets-done :
      (r : Bundle) (base_path : String) (ws : List Wallet) (grid : El)
      → All (λ w. (uri : String) × (w.uri ≡ some uri)) ws
      → let m = render_wallets b r base_path ws grid in
        (g : El) × (m.0 ≡ done g)
        × (length g.content ≡ (if eqb (length ws) 0 then 1 else length ws))
        × (find_key "aria-busy" g.attrs ≡ some "false")
        × (m.1 ≡ eqb (length ws) 1)
  unfolding render_wallets set_attr
  render_wallets-done r base_path [] grid h =
      (_, refl, refl, find_key-set_entry_self "aria-busy" "false" grid.attrs, refl)
  render_wallets-done r base_path (w ∷ ws) grid h =
      let made =
        append_wallets-done r base_path (w ∷ ws)
          (record (set_attr "aria-busy" "false" grid) { content = [] }) h in
      (
        made.0,
        else_of _ (not_zero (length ws)) made.1,
        made.2 ∙ ground arith,
        ap (find_key "aria-busy") made.3 ∙ find_key-set_entry_self "aria-busy" "false" grid.attrs,
        refl,
      )

  -- The cards of these wallets, in their order.
  abbrev pub AreCards : Bundle → String → List Wallet → List Node → Type 0
  AreCards r base_path [] [] = Unit
  AreCards r base_path [] (n ∷ ns) = ⊥
  AreCards r base_path (w ∷ ws) [] = ⊥
  AreCards r base_path (w ∷ ws) (n ∷ ns) =
      (create_wallet_card b r base_path w ≡ ok n) × AreCards r base_path ws ns

  -- The first wallet without an address ends the rendering with an exception: the grid has what it had,
  -- the cards of the wallets before it in their order, and nothing of the later ones.
  pub append_wallets-stops :
      (r : Bundle) (base_path : String) (ws later : List Wallet) (w : Wallet) (grid : El)
      → All (λ w. (uri : String) × (w.uri ≡ some uri)) ws
      → w.uri ≡ none
      → (ns : List Node) × AreCards r base_path ws ns
        × (append_wallets b r base_path (ws ++ (w ∷ later)) grid
            ≡ threw "TypeError" (record grid { content = grid.content ++ ns }))
  unfolding append_wallets and_then try_write create_wallet_card build_wallet_uri ◌>>=◌
  append_wallets-stops r base_path [] later w grid h n = (
    [],
    tt,
    rw n
        (ap (λ c. threw "TypeError" (record grid { content = c })) (sym (append-nil grid.content))),
  )
  append_wallets-stops r base_path (v ∷ ws) later w grid ((uri, e), h) n =
      let made = card_of r base_path v uri e in
      let grown = record grid { content = grid.content ++ (made.0 ∷ []) } in
      let rest = append_wallets-stops r base_path ws later w grown h n in
      (
        made.0 ∷ rest.0,
        (made.1, rest.1),
        rw made.1 (
            rest.2
            ∙ ap (λ c. threw "TypeError" (record grid { content = c }))
                (append_assoc grid.content (made.0 ∷ []) rest.0)),
      )
