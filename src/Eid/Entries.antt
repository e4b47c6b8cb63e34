-- ===== src/Eid/Entries.antt =====
-- `getEidEntriesForRow`: the cards of a row. The CIE entries for SAML2 and OpenID Connect are merged
-- into one card with a menu when both are there.
pub mod Laws
use satosa_saml2spid.Base.{
  String, Bool, true, false, not, ◌||◌, Option, none, some, List, [], ◌∷◌, map, ◌==◌, if◌then◌else◌,
  find_key, is_truthy,
}
use satosa_saml2spid.Eid.Bundle.{Eid, Group, missing, scalar, entries}

-- A card is one entry, or the merged one with its `_cieOptions`.
pub record Card : Type 0 where
  pub eid : Eid
  pub cie_options : List Eid

abbrev pub single : Eid → Card
single e = record { eid = e; cie_options = [] }

-- `value || fallback`.
abbrev pub truthy_or : Option String → String → String
truthy_or none fallback = fallback
truthy_or (some s) fallback = if is_truthy s then s else fallback

unfoldable pub merge_cie : Eid → Eid → Card
merge_cie cie cie_oidc = record {
  eid = record {
    name = some "CIE";
    logo_text = some (truthy_or cie.logo_text "Login with CIE");
    logo = cie.logo;
    login_url = some "#cie-idp-button";
    learn_more_descr = cie.learn_more_descr;
    learn_more_link = cie.learn_more_link;
    learn_more_label = none;
    learn_more_toggle_label = none;
  };
  cie_options = cie ∷ cie_oidc ∷ [];
}

abbrev pub is_cie_key : String → Bool
is_cie_key k = (k == "cie") || (k == "cie_oidc")

-- The loop over the entries; the flag is `mergedCieInserted`.
unfoldable pub merge_loop : Card → Bool → List (String × Eid) → List Card
merge_loop merged inserted [] = []
merge_loop merged inserted ((k, v) ∷ rest) =
    let skipped = merge_loop merged inserted rest in
    let placed = merged ∷ merge_loop merged true rest in
    let kept = single v ∷ merge_loop merged inserted rest in
    if is_cie_key k then (if not inserted then placed else skipped) else kept

abbrev pub values : List (String × Eid) → List Card
values es = map (λ e. single e.1) es

unfoldable pub entries_for_row : List (String × Eid) → List Card
entries_for_row es = elim (find_key "cie" es) [
  | none ↦ values es
  | some cie ↦ elim (find_key "cie_oidc" es) [
    | none ↦ values es
    | some cie_oidc ↦ merge_loop (merge_cie cie cie_oidc) false es
  ]
]

unfoldable pub get_eid_entries_for_row : Group → List Card
get_eid_entries_for_row missing = []
get_eid_entries_for_row scalar = []
get_eid_entries_for_row (entries es) = entries_for_row es
