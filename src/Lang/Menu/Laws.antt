-- ===== src/Lang/Menu/Laws.antt =====
-- The marks of the options agree with the language, and binding again adds no listener.
use satosa_saml2spid.Base.{
  ℕ, suc, String, ◌≡◌, refl, ap, Bool, true, false, Option, none, some, ◌⊎◌, inl, inr, List, [],
  ◌∷◌, map, All, ◌==◌, if◌then◌else◌, is_truthy, arith, Bool-cases,
}
use satosa_saml2spid.Lang.Menu.{
  normalize_lang, first_part, Translator, LangOption, Root, sync_option, sync_root, Header,
  bind_root, init_header_lang_dropdown,
}

-- Every language is taken for one of the two that there are.
normalize_lang-cases :
    (lng : Option String) → (normalize_lang lng ≡ "it") ⊎ (normalize_lang lng ≡ "en")
unfolding normalize_lang
normalize_lang-cases none = inl refl
normalize_lang-cases (some s) = by_tests (is_truthy s) (first_part s == "en")
  where
    by_tests :
        (b c : Bool)
        → let code : String = if b then (if c then "en" else "it") else "it" in
          (code ≡ "it") ⊎ (code ≡ "en")
    by_tests true true = inr refl
    by_tests true false = inl refl
    by_tests false c = inl refl

-- An option is marked in all three ways if it is for the language, and in none if it is not.
abbrev pub IsMarked : String → LangOption → Type 0
IsMarked code o =
    (o.is_active_class ≡ (o.data_lang == code))
    × (o.aria_checked ≡ (o.data_lang == code))
    × (o.aria_current ≡ (o.data_lang == code))
    × (o.role ≡ "menuitemradio")

pub sync_option-IsMarked :
    (code : String) (os : List LangOption) → All (IsMarked code) (map (sync_option code) os)
unfolding sync_option
sync_option-IsMarked code [] = tt
sync_option-IsMarked code (o ∷ os) = ((refl, refl, refl, refl), sync_option-IsMarked code os)

sync_option_twice :
    (code : String) (os : List LangOption)
    → map (sync_option code) (map (sync_option code) os) ≡ map (sync_option code) os
unfolding sync_option
sync_option_twice code [] = refl
sync_option_twice code (o ∷ os) = ap (λ t. sync_option code o ∷ t) (sync_option_twice code os)

role_twice :
    (s : String)
    → let r = (if is_truthy s then s else "menu") in (if is_truthy r then r else "menu") ≡ r
role_twice s = ground arith

-- `syncRoot` marks exactly the options for the language, which is Italian or English, and a second run
-- for the same language changes nothing.
pub sync_root_lem :
    (t : Translator) (lng : Option String) (root : Root)
    → let code = normalize_lang lng in
      ((code ≡ "it") ⊎ (code ≡ "en"))
      × All (IsMarked code) (sync_root t lng root).options
      × (sync_root t lng (sync_root t lng root) ≡ sync_root t lng root)
unfolding sync_root
sync_root_lem t lng root = (
  normalize_lang-cases lng,
  sync_option-IsMarked (normalize_lang lng) root.options,
  rw (role_twice root.menu_role, sync_option_twice (normalize_lang lng) root.options) refl,
)

abbrev pub listeners_of : Header → List ℕ
listeners_of h = map (λ root. root.listeners) h.roots

bound_again :
    (t u : Translator) (lng other : Option String) (roots : List Root)
    → map
        (λ root. root.listeners)
        (map bind_root (map (sync_root u other) (map bind_root (map (sync_root t lng) roots))))
      ≡ map (λ root. root.listeners) (map bind_root (map (sync_root t lng) roots))
unfolding bind_root sync_root
bound_again t u lng other [] = refl
bound_again t u lng other (root ∷ roots) = elim (Bool-cases root.bound) [
  | inl y ↦ rw y (ap (λ l. root.listeners ∷ l) (bound_again t u lng other roots))
  | inr n ↦ rw n (ap (λ l. suc root.listeners ∷ l) (bound_again t u lng other roots))
]

-- Initialising again, with any translator and language, adds no click listener to any option and no
-- listener of `languageChanged`.
pub init_header_lang_dropdown_twice :
    (t u : String → String → String) (lng other : Option String) (h : Header)
    → let once = init_header_lang_dropdown t lng h in
      let twice = init_header_lang_dropdown u other once in
      (listeners_of twice ≡ listeners_of once) × (twice.on_change ≡ once.on_change)
unfolding init_header_lang_dropdown
init_header_lang_dropdown_twice t u lng other h =
    (bound_again (some t) (some u) lng other h.roots, ground arith)
