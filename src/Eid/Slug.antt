-- ===== src/Eid/Slug.antt =====
-- `eidCardSlug` and `walletCardSlug`: identifiers made from names. `toLowerCase`, whose case mapping
-- is a table of the platform, is a parameter.
pub mod Laws
use Prim.Native.Char.{code}
use satosa_saml2spid.Base.{
  String, ℕ, Bool, true, false, not, ◌&&◌, ◌||◌, Option, [], ◌∷◌, leb, eqb, if◌then◌else◌,
  is_truthy, text_or,
}
use satosa_saml2spid.Eid.Entries.{truthy_or}

-- `[a-z0-9]`.
unfoldable pub is_slug_char : ℕ → Bool
is_slug_char c = leb b'a' c && leb c b'z' || leb b'0' c && leb c b'9'

-- `.replace(/[^a-z0-9]+/g, '-')`; the flag says that the run of other characters has had its dash.
unfoldable pub dash_runs : Bool → String → String
unfolding is_slug_char
dash_runs in_run String.[] = ""
dash_runs in_run (String.◌∷◌ c s) =
    let kept = String.◌∷◌ c (dash_runs false s) in
    let rest = dash_runs true s in
    if is_slug_char (code c) then kept else if in_run then rest else String.◌∷◌ "-" rest

unfoldable pub eid_card_slug : (String → String) → Option String → String
unfolding dash_runs
eid_card_slug to_lower name = dash_runs false (to_lower (truthy_or name "card"))

-- `.replace(/^-+|-+$/g, '')`, in two steps.
unfoldable pub drop_first_dash : String → String
drop_first_dash String.[] = ""
drop_first_dash (String.◌∷◌ c s) = if eqb (code c) b'-' then drop_first_dash s else String.◌∷◌ c s

unfoldable pub drop_last_dash : String → String
drop_last_dash String.[] = ""
drop_last_dash (String.◌∷◌ c s) =
    let rest = drop_last_dash s in
    if eqb (code c) b'-' && not (is_truthy rest) then "" else String.◌∷◌ c rest

-- `wallet.id || wallet.name || 'wallet'`, lower case, with dashes inside only.
unfoldable pub wallet_card_slug : (String → String) → Option String → Option String → String
unfolding dash_runs drop_first_dash drop_last_dash
wallet_card_slug to_lower id name =
    text_or
      (drop_last_dash
        (drop_first_dash (dash_runs false (to_lower (truthy_or id (truthy_or name "wallet"))))))
      "wallet"
