-- ===== src/Eid/Page/Ends.antt =====
-- A load ends without an exception where the bundle has its titles and each entry an address.
use satosa_saml2spid.Base.{
  String, ℕ, ◌≡◌, refl, ◌||◌, Bool, true, false, not, ◌&&◌, Option, none, some, Result, ok, ◌>>=◌,
  Ended, done, and_then, try_write, List, [], ◌∷◌, All, if◌then◌else◌, is_truthy, find_key,
  Bool-cases, inl, inr,
}
use satosa_saml2spid.Dom.Tree.{Node}
use satosa_saml2spid.Eid.Bundle.{Eid, Group, missing, scalar, entries, Bundle, read_in}
use satosa_saml2spid.Eid.Entries.{
  Card, single, merge_cie, is_cie_key, merge_loop, values, entries_for_row, get_eid_entries_for_row,
}
use satosa_saml2spid.Eid.LearnMore.{is_given, coalesce, create_learn_more}
use satosa_saml2spid.Eid.Cards.{create_eid_card_box, card_columns, create_eid_cards_row, group_of}
use satosa_saml2spid.Eid.Cards.Button.{
  cie_menu, is_wallet, target_href, button_for, create_logo_button,
}
use satosa_saml2spid.Eid.Page.{
  Site, update_page_heading, load_digital, load_alternative, load_eid_cards, load_bundle,
  load_i18next,
}

-- A result that is no exception, and a state that none has ended.
pub data IsOk {ℓ} {A : Type ℓ} : Result A → Type ℓ where
  returned : (a : A) → IsOk (ok a)

pub data IsDone {ℓ} {S : Type ℓ} : Ended S → Type ℓ where
  finished : (s : S) → IsDone (done s)

IsOk-bind {ℓ κ} :
    {A : Type ℓ} {B : Type κ} {m : Result A} {f : A → Result B}
    → IsOk m
    → ((a : A) → IsOk (f a))
    → IsOk (m >>= f)
unfolding ◌>>=◌
IsOk-bind (returned a) k = k a

IsDone-and_then {ℓ} :
    {S : Type ℓ} {m : Ended S} {f : S → Ended S}
    → IsDone m
    → ((s : S) → IsDone (f s))
    → IsDone (and_then m f)
unfolding and_then
IsDone-and_then (finished s) k = k s

IsDone-try_write {ℓ κ} :
    {S : Type ℓ} {A : Type κ} {m : Result A} (f : A → S → S) (s : S)
    → IsOk m
    → IsDone (try_write m f s)
unfolding try_write
IsDone-try_write f s (returned a) = finished (f a s)

IsDone-if {ℓ} :
    {S : Type ℓ} (b : Bool) {m n : Ended S} → IsDone m → IsDone n → IsDone (if b then m else n)
IsDone-if true h k = h
IsDone-if false h k = k

-- A value that is there; entries with an address; and a bundle that is complete.
abbrev IsPresent {ℓ} : {A : Type ℓ} → Option A → Type 0
IsPresent none = ⊥
IsPresent (some a) = Unit

present {ℓ} : {A : Type ℓ} (o : Option A) → IsPresent o → (a : A) × (o ≡ some a)
present none h = elim h [ ]
present (some a) h = (a, refl)

abbrev AllHaveUrl : Group → Type 0
AllHaveUrl missing = Unit
AllHaveUrl scalar = Unit
AllHaveUrl (entries es) = All (λ (e : String × Eid). IsPresent e.1.login_url) es

abbrev pub IsComplete : Bundle → Type 0
IsComplete r =
    IsPresent (find_key "titles" r.sections) × AllHaveUrl r.digital_id × AllHaveUrl r.alternative_id

-- The cards of a group with addresses have addresses.
abbrev CardsHaveUrl : List Card → Type 0
CardsHaveUrl cs = All (λ (c : Card). IsPresent c.eid.login_url) cs

values-HaveUrl : (es : List (String × Eid)) → AllHaveUrl (entries es) → CardsHaveUrl (values es)
values-HaveUrl [] h = tt
values-HaveUrl (e ∷ es) (p, h) = (p, values-HaveUrl es h)

merge_loop-HaveUrl :
    (merged : Card) (inserted : Bool) (es : List (String × Eid))
    → IsPresent merged.eid.login_url
    → AllHaveUrl (entries es)
    → CardsHaveUrl (merge_loop merged inserted es)
unfolding merge_loop
merge_loop-HaveUrl merged inserted [] m h = tt
merge_loop-HaveUrl merged inserted ((k, v) ∷ es) m (p, h) =
    by_key (is_cie_key k) inserted _ _ (merge_loop-HaveUrl merged inserted es m h)
      (merge_loop-HaveUrl merged true es m h)
  where
    by_key :
        (c b : Bool) (xs ys : List Card)
        → CardsHaveUrl xs
        → CardsHaveUrl ys
        → CardsHaveUrl (if c then (if not b then merged ∷ ys else xs) else single v ∷ xs)
    by_key true true xs ys x y = x
    by_key true false xs ys x y = (m, y)
    by_key false b xs ys x y = (p, x)

cards-HaveUrl : (g : Group) → AllHaveUrl g → CardsHaveUrl (get_eid_entries_for_row g)
unfolding get_eid_entries_for_row entries_for_row merge_cie
cards-HaveUrl missing h = tt
cards-HaveUrl scalar h = tt
cards-HaveUrl (entries es) h = by_first (find_key "cie" es)
  where
    by_second :
        (cie : Eid) (o : Option Eid)
        → CardsHaveUrl
            (elim o [ none ↦ values es | some oidc ↦ merge_loop (merge_cie cie oidc) false es ])
    by_second cie none = values-HaveUrl es h
    by_second cie (some oidc) = merge_loop-HaveUrl (merge_cie cie oidc) false es tt h

    by_first :
        (o : Option Eid)
        → CardsHaveUrl (elim o [
          | none ↦ values es
          | some cie ↦ elim (find_key "cie_oidc" es) [
            | none ↦ values es
            | some oidc ↦ merge_loop (merge_cie cie oidc) false es
          ]
        ])
    by_first none = values-HaveUrl es h
    by_first (some cie) = by_second cie (find_key "cie_oidc" es)

module _ (to_lower : String → String) (query : String) where
  target_href-IsOk : (eid : Eid) → IsPresent eid.login_url → IsOk (target_href to_lower query eid)
  unfolding target_href
  target_href-IsOk eid h =
      let (url, e) = present eid.login_url h in
      elim (Bool-cases (is_wallet to_lower eid && is_truthy query)) [
        | inl y ↦ rw (y, target_href) (rw (e, target_href) (returned _))
        | inr n ↦ rw (n, target_href) (returned _)
      ]

  create_logo_button-IsOk :
      (c : Card) → IsPresent c.eid.login_url → IsOk (create_logo_button to_lower query c)
  unfolding create_logo_button button_for
  create_logo_button-IsOk c h = by_options c.cie_options _
    where
      by_options :
          (os : List Eid) (b : Bool)
          → IsOk (elim os [
            | o ∷ rest ↦ ok (cie_menu to_lower c.eid (o ∷ rest))
            | [] ↦ button_for to_lower b query c.eid
          ])
      by_options (o ∷ os) b = returned _
      by_options [] true = returned _
      by_options [] false = IsOk-bind (target_href-IsOk c.eid h) (λ _. returned _)

module _ (to_lower : String → String) (query : String) (r : Bundle)
    (titles : IsPresent (find_key "titles" r.sections)) where
  titles-IsOk : (key : String) → IsOk (read_in r "titles" key)
  unfolding read_in
  titles-IsOk key =
      let (texts, e) = present (find_key "titles" r.sections) titles in rw (e, read_in) (returned _)

  coalesce-IsOk : (o : Option String) (m : Result (Option String)) → IsOk m → IsOk (coalesce o m)
  coalesce-IsOk none m h = h
  coalesce-IsOk (some s) m h = returned _

  create_learn_more-IsOk :
      (eid : Eid) (title_id : String) → IsOk (create_learn_more to_lower r eid title_id)
  unfolding create_learn_more
  create_learn_more-IsOk eid title_id =
      IsOk-bind (coalesce-IsOk eid.learn_more_toggle_label _ (titles-IsOk "learn_more")) λ a.
        IsOk-bind (coalesce-IsOk eid.learn_more_label _ (titles-IsOk "find_how_to_get_digital_id"))
          λ find. IsOk-bind (coalesce-IsOk find _ (titles-IsOk "learn_more")) (λ _. returned _)

  IsOk-if : (b : Bool) {m n : Result (Option Node)} → IsOk m → IsOk n → IsOk (if b then m else n)
  IsOk-if true h k = h
  IsOk-if false h k = k

  create_eid_card_box-IsOk :
      (c : Card) (level : ℕ)
      → IsPresent c.eid.login_url
      → IsOk (create_eid_card_box to_lower query r c level)
  unfolding create_eid_card_box
  create_eid_card_box-IsOk c level h =
      IsOk-bind (create_logo_button-IsOk to_lower query c h) λ button.
        IsOk-bind
          (IsOk-if (is_given c.eid.learn_more_link || is_given c.eid.learn_more_descr)
            (create_learn_more-IsOk c.eid _) (returned _))
          (λ _. returned _)

  card_columns-IsOk :
      (level : ℕ) (cs : List Card) → CardsHaveUrl cs → IsOk (card_columns to_lower query r level cs)
  unfolding card_columns
  card_columns-IsOk level [] h = returned _
  card_columns-IsOk level (c ∷ cs) (p, h) =
      IsOk-bind (create_eid_card_box-IsOk c level p)
        λ box. IsOk-bind (card_columns-IsOk level cs h) (λ _. returned _)

  row-IsOk :
      (id_key : String) (level : ℕ)
      → AllHaveUrl (group_of r id_key)
      → IsOk (create_eid_cards_row to_lower query r id_key level)
  unfolding create_eid_cards_row
  row-IsOk id_key level h =
      IsOk-bind (card_columns-IsOk level _ (cards-HaveUrl (group_of r id_key) h)) (λ _. returned _)

  heading-IsDone : (s : Site) → IsDone (update_page_heading r s)
  unfolding update_page_heading
  heading-IsDone s = IsDone-if _ (finished _) (
      IsDone-if _ (IsDone-try_write _ s (titles-IsOk "login_digital_identity"))
        (IsDone-if _ (IsDone-try_write _ s (titles-IsOk "login_alternative_method")) (finished _)))

  digital-IsDone : (s : Site) → AllHaveUrl r.digital_id → IsDone (load_digital to_lower query r s)
  unfolding load_digital
  digital-IsDone s h = IsDone-and_then (IsDone-try_write _ s (row-IsOk "digital_id" 2 h)) λ s1.
      IsDone-try_write _ s1 (
        IsOk-bind (titles-IsOk "havent_digital_identy") λ question.
          IsOk-bind (titles-IsOk "find_how_to_get_digital_id")
            λ find. IsOk-bind (titles-IsOk "find_how_to_get_digital_id_url") (λ _. returned _))

  alternative-IsDone :
      (s : Site) → AllHaveUrl r.alternative_id → IsDone (load_alternative to_lower query r s)
  unfolding load_alternative
  alternative-IsDone s h = IsDone-try_write _ s (
      IsOk-bind (titles-IsOk "login_alternative_method")
        λ label. IsOk-bind (row-IsOk "alternative_id" _ h) (λ _. returned _))

  load_eid_cards-IsDone :
      (s : Site)
      → AllHaveUrl r.digital_id
      → AllHaveUrl r.alternative_id
      → IsDone (load_eid_cards to_lower query r s)
  unfolding load_eid_cards
  load_eid_cards-IsDone s d a = IsDone-if _ (finished _) (
      IsDone-and_then (heading-IsDone s) λ s1. IsDone-if _ (finished _) (
        IsDone-and_then (IsDone-if _ (digital-IsDone _ d) (finished _)) λ s3.
          IsDone-and_then (IsDone-if _ (alternative-IsDone s3 a) (finished _)) (λ s4. finished _)))

-- Where a bundle has its titles, and each entry of its two groups an address, a load ends without an
-- exception, on any page and for any query.
pub load_i18next-IsDone :
    (to_lower : String → String) (query : String) (t : String → String) (s : Site) (r : Bundle)
    → IsComplete r
    → IsDone (load_i18next to_lower query t (some r) s)
unfolding load_i18next load_bundle
load_i18next-IsDone to_lower query t s r (titles, d, a) =
    load_eid_cards-IsDone to_lower query r titles _ d a

pub load_none-IsDone :
    (to_lower : String → String) (query : String) (t : String → String) (s : Site)
    → IsDone (load_i18next to_lower query t none s)
unfolding load_i18next
load_none-IsDone to_lower query t s = finished _
