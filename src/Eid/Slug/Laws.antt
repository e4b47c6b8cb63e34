-- ===== src/Eid/Slug/Laws.antt =====
-- What a slug is made of.
use Prim.Native.Char.{code}
use satosa_saml2spid.Base.{
  String, ℕ, ◌≡◌, refl, Bool, true, false, not, ◌&&◌, ◌||◌, Option, eqb, if◌then◌else◌, is_truthy,
  text_or, arith, Bool-cases, inl, inr,
}
use satosa_saml2spid.Eid.Entries.{truthy_or}
use satosa_saml2spid.Eid.Slug.{
  is_slug_char, dash_runs, eid_card_slug, drop_first_dash, drop_last_dash, wallet_card_slug,
}

abbrev pub slug_or_dash : ℕ → Bool
slug_or_dash c = is_slug_char c || eqb c b'-'

-- Every character of a text passes a test.
unfoldable pub all_codes : (ℕ → Bool) → String → Bool
all_codes p String.[] = true
all_codes p (String.◌∷◌ c s) = p (code c) && all_codes p s

-- No two dashes stand in a row, and no dash at the front of a text behind one.
unfoldable pub dashes_apart : Bool → String → Bool
dashes_apart behind String.[] = true
dashes_apart behind (String.◌∷◌ c s) =
    not (behind && eqb (code c) b'-') && dashes_apart (eqb (code c) b'-') s

dash_runs-all_codes : (r : Bool) (s : String) → all_codes slug_or_dash (dash_runs r s) ≡ true
unfolding all_codes dash_runs
dash_runs-all_codes r String.[] = refl
dash_runs-all_codes r (String.◌∷◌ c s) =
    ground (arith, dash_runs-all_codes false s, dash_runs-all_codes true s)

-- A run of other characters gives one dash: behind a dash the rest begins with a character to keep.
dash_runs-dashes_apart : (r : Bool) (s : String) → dashes_apart r (dash_runs r s) ≡ true
unfolding dashes_apart dash_runs is_slug_char
dash_runs-dashes_apart r String.[] = refl
dash_runs-dashes_apart r (String.◌∷◌ c s) =
    ground (arith, dash_runs-dashes_apart false s, dash_runs-dashes_apart true s)

-- Whatever the name and the case mapping, the slug of a card has only the characters a-z, 0-9 and the
-- dash, and no two dashes in a row.
pub eid_card_slug-all_codes :
    (to_lower : String → String) (name : Option String)
    → (all_codes slug_or_dash (eid_card_slug to_lower name) ≡ true)
      × (dashes_apart false (eid_card_slug to_lower name) ≡ true)
unfolding eid_card_slug
eid_card_slug-all_codes to_lower name =
    let lower = to_lower (truthy_or name "card") in
    (dash_runs-all_codes false lower, dash_runs-dashes_apart false lower)

drop_first_dash-all_codes :
    (s : String)
    → all_codes slug_or_dash s ≡ true
    → all_codes slug_or_dash (drop_first_dash s) ≡ true
unfolding drop_first_dash all_codes
drop_first_dash-all_codes String.[] h = refl
drop_first_dash-all_codes (String.◌∷◌ c s) h = ground (arith, drop_first_dash-all_codes s)

drop_last_dash-all_codes :
    (s : String)
    → all_codes slug_or_dash s ≡ true
    → all_codes slug_or_dash (drop_last_dash s) ≡ true
unfolding drop_last_dash all_codes
drop_last_dash-all_codes String.[] h = refl
drop_last_dash-all_codes (String.◌∷◌ c s) h = ground (arith, drop_last_dash-all_codes s)

-- A text does not begin with a dash, and is not empty.
unfoldable pub starts_well : String → Bool
starts_well String.[] = false
starts_well (String.◌∷◌ c s) = not (eqb (code c) b'-')

-- Nor does it end with one.
unfoldable pub ends_well : String → Bool
ends_well String.[] = false
ends_well (String.◌∷◌ c s) = if is_truthy s then ends_well s else not (eqb (code c) b'-')

drop_first_dash-starts_well :
    (s : String) → is_truthy (drop_first_dash s) ≡ true → starts_well (drop_first_dash s) ≡ true
unfolding drop_first_dash starts_well
drop_first_dash-starts_well String.[] h = cc
drop_first_dash-starts_well (String.◌∷◌ c s) h = ground (arith, drop_first_dash-starts_well s)

drop_last_dash-ends_well :
    (s : String) → is_truthy (drop_last_dash s) ≡ true → ends_well (drop_last_dash s) ≡ true
unfolding drop_last_dash ends_well
drop_last_dash-ends_well String.[] h = cc
drop_last_dash-ends_well (String.◌∷◌ c s) h = ground (arith, drop_last_dash-ends_well s)

drop_last_dash-starts_well :
    (s : String) → starts_well s ≡ true → starts_well (drop_last_dash s) ≡ true
unfolding drop_last_dash starts_well
drop_last_dash-starts_well String.[] h = cc
drop_last_dash-starts_well (String.◌∷◌ c s) h = ground arith

truthy_of_drop_last_dash : (s : String) → is_truthy (drop_last_dash s) ≡ true → is_truthy s ≡ true
unfolding drop_last_dash
truthy_of_drop_last_dash String.[] h = h
truthy_of_drop_last_dash (String.◌∷◌ c s) h = refl

abbrev IsSlug : String → Type 0
IsSlug slug =
    (all_codes slug_or_dash slug ≡ true) × (starts_well slug ≡ true) × (ends_well slug ≡ true)

strip_IsSlug :
    (s : String)
    → all_codes slug_or_dash s ≡ true
    → IsSlug (text_or (drop_last_dash (drop_first_dash s)) "wallet")
unfolding all_codes starts_well ends_well is_slug_char
strip_IsSlug s h =
    let t = drop_last_dash (drop_first_dash s) in
    elim (Bool-cases (is_truthy t)) [
      | inl full ↦ rw full (
        drop_last_dash-all_codes _ (drop_first_dash-all_codes s h),
        drop_last_dash-starts_well _
            (drop_first_dash-starts_well s (truthy_of_drop_last_dash (drop_first_dash s) full)),
        drop_last_dash-ends_well _ full,
      )
      | inr empty ↦ rw empty (refl, refl, refl)
    ]

-- The slug of a wallet is not empty, has only the characters a-z, 0-9 and the dash, and neither begins
-- nor ends with a dash, whatever the identifier, the name and the case mapping.
pub wallet_card_slug_lem :
    (to_lower : String → String) (id name : Option String)
    → let slug = wallet_card_slug to_lower id name in
      (all_codes slug_or_dash slug ≡ true) × (starts_well slug ≡ true) × (ends_well slug ≡ true)
unfolding wallet_card_slug
wallet_card_slug_lem to_lower id name =
    strip_IsSlug _ (dash_runs-all_codes false (to_lower (truthy_or id (truthy_or name "wallet"))))
