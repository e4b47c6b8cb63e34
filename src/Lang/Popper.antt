-- ===== src/Lang/Popper.antt =====
-- The `popperConfig` of `bindLangMenuPopper`: the distance between the trigger and its menu.
use satosa_saml2spid.Base.{
  ℕ, String, ◌≡◌, refl, ap, ◌∙◌, Bool, true, false, not, ◌||◌, inl, inr, List, [], ◌∷◌, ◌++◌, map,
  ◌==◌, if◌then◌else◌, any, filter, All, All-append, append-nil, arith, Bool-cases,
}

-- A modifier: its name, the `offset` among its options, and the rest of the options.
pub record Modifier : Type 0 where
  pub name : String
  pub offset : List ℕ
  pub other_options : List (String × String)

abbrev pub menu_offset_px : ℕ
menu_offset_px = 24

unfoldable pub set_offset : Modifier → Modifier
set_offset m = if m.name == "offset" then record m { offset = 0 ∷ menu_offset_px ∷ [] } else m

-- The modifiers of the default configuration, with the offset set, or added if there is none.
unfoldable pub popper_modifiers : List Modifier → List Modifier
unfolding set_offset
popper_modifiers modifiers =
    let mods = map set_offset modifiers in
    if any (λ m. m.name == "offset") modifiers
    then mods
    else mods
      ++ (record { name = "offset"; offset = 0 ∷ menu_offset_px ∷ []; other_options = [] } ∷ [])

abbrev pub offsets : List Modifier → List Modifier
offsets = filter λ m. m.name == "offset"

abbrev pub others : List Modifier → List Modifier
others = filter λ m. not (m.name == "offset")

any-append :
    (p : Modifier → Bool) (xs ys : List Modifier) → any p (xs ++ ys) ≡ (any p xs || any p ys)
any-append p [] ys = refl
any-append p (x ∷ xs) ys = ground (arith, any-append p xs ys)

filter-append :
    (p : Modifier → Bool) (xs ys : List Modifier) → filter p (xs ++ ys) ≡ filter p xs ++ filter p ys
filter-append p [] ys = refl
filter-append p (x ∷ xs) ys = elim (Bool-cases (p x)) [
  | inl y ↦ rw y (ap (λ t. x ∷ t) (filter-append p xs ys))
  | inr n ↦ rw n (filter-append p xs ys)
]

others-map : (ms : List Modifier) → others (map set_offset ms) ≡ others ms
unfolding set_offset
others-map [] = refl
others-map (m ∷ ms) = elim (Bool-cases (m.name == "offset")) [
  | inl y ↦ rw y (rw y (others-map ms))
  | inr n ↦ rw n (rw n (ap (λ t. m ∷ t) (others-map ms)))
]

-- Each modifier with the name `offset` has the distance.
abbrev pub HasDistance : Modifier → Type 0
HasDistance m = (m.name == "offset") ≡ true → m.offset ≡ (0 ∷ menu_offset_px ∷ [])

set_offset-HasDistance : (m : Modifier) → HasDistance (set_offset m)
unfolding set_offset
set_offset-HasDistance m = elim (Bool-cases (m.name == "offset")) [
  | inl y ↦ rw y (λ e. refl)
  | inr n ↦ rw n (λ e. elim (clash m.name n e) [ ])
]
  where
    clash : (s : String) → (s == "offset") ≡ false → (s == "offset") ≡ true → ⊥
    clash s n e = cc

map-HasDistance : (ms : List Modifier) → All HasDistance (map set_offset ms)
map-HasDistance [] = tt
map-HasDistance (m ∷ ms) = (set_offset-HasDistance m, map-HasDistance ms)

any-map :
    (ms : List Modifier)
    → any (λ m. m.name == "offset") (map set_offset ms) ≡ any (λ m. m.name == "offset") ms
unfolding set_offset
any-map [] = refl
any-map (m ∷ ms) = elim (Bool-cases (m.name == "offset")) [
  | inl y ↦ rw y (rw y refl)
  | inr n ↦ rw n (rw n (any-map ms))
]

-- Whatever the default modifiers are, there is an `offset` among the result, each `offset` has the
-- distance of 24 pixels, and the modifiers with other names are the given ones, in their order.
pub popper_modifiers_lem :
    (ms : List Modifier)
    → (any (λ m. m.name == "offset") (popper_modifiers ms) ≡ true)
      × All HasDistance (popper_modifiers ms)
      × (others (popper_modifiers ms) ≡ others ms)
unfolding popper_modifiers
popper_modifiers_lem ms = elim (Bool-cases (any (λ m. m.name == "offset") ms)) [
  | inl y ↦ rw y (any-map ms ∙ y, map-HasDistance ms, others-map ms)
  | inr n ↦ rw n (
    any-append (λ m. m.name == "offset") (map set_offset ms) _ ∙ ground arith,
    All-append HasDistance (map set_offset ms) _ (map-HasDistance ms) ((λ e. refl), tt),
    filter-append (λ m. not (m.name == "offset")) (map set_offset ms) _
        ∙ append-nil _
        ∙ others-map ms,
  )
]
