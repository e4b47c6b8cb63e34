-- ===== src/Dom/Address.antt =====
-- The address below which a page finds its files: `getBasePath` of the wallet page, and the same lines
-- of the error page.
use Prim.Native.Char.{Char, code}
use text.Mathlib.TextLemmas.{nil-append, cons-append}
use satosa_saml2spid.Base.{
  String, ◌<>◌, ◌≡◌, refl, sym, ap, ◌∙◌, Bool, true, false, Option, none, some, eqb, if◌then◌else◌,
  Bool-cases, inl, inr, ◌⊎◌,
}

-- The text up to its last slash, with it; `none` without a slash.
unfoldable pub up_to_slash : String → Option String
up_to_slash String.[] = none
up_to_slash (String.◌∷◌ c s) =
    let rest = up_to_slash s in
    elim rest [
      | some t ↦ some (String.◌∷◌ c t)
      | none ↦ if eqb (code c) b'/' then some (String.◌∷◌ c "") else none
    ]

-- `getBasePath`.
unfoldable pub get_base_path : String → String
unfolding up_to_slash
get_base_path path = elim (up_to_slash path) [ none ↦ "/" | some folder ↦ folder ]

-- The file of a path has no slash in it.
abbrev pub has_slash : String → Bool
has_slash String.[] = false
has_slash (String.◌∷◌ c s) = if eqb (code c) b'/' then true else has_slash s

-- The last character of a text is a slash.
abbrev pub ends_slash : String → Bool
ends_slash String.[] = false
ends_slash (String.◌∷◌ c String.[]) = eqb (code c) b'/'
ends_slash (String.◌∷◌ c (String.◌∷◌ d s)) = ends_slash (String.◌∷◌ d s)

-- Where a path has a slash, what is taken of it ends in one, and what is left has none.
abbrev Splits : String → Option String → Type 0
Splits path none = has_slash path ≡ false
Splits path (some folder) =
    (file : String) × (path ≡ folder <> file)
    × (has_slash file ≡ false)
    × (ends_slash folder ≡ true)

ends_slash-cons : (c : Char) (s : String) → ends_slash s ≡ true → ends_slash (String.◌∷◌ c s) ≡ true
ends_slash-cons c String.[] h = cc
ends_slash-cons c (String.◌∷◌ d s) h = h

up_to_slash-Splits : (path : String) → Splits path (up_to_slash path)
unfolding up_to_slash
up_to_slash-Splits String.[] = refl
up_to_slash-Splits (String.◌∷◌ c s) = by_rest (up_to_slash s) (up_to_slash-Splits s)
  where
    by_rest :
        (o : Option String)
        → Splits s o
        → Splits (String.◌∷◌ c s) (elim o [
          | some t ↦ some (String.◌∷◌ c t)
          | none ↦ if eqb (code c) b'/' then some (String.◌∷◌ c "") else none
        ])
    by_rest (some t) (file, e, h, k) =
        (file, ap (String.◌∷◌ c) e ∙ sym (cons-append c t file), h, ends_slash-cons c t k)
    by_rest none h = elim (Bool-cases (eqb (code c) b'/')) [
      | inl y ↦ rw y (s, sym (cons-append c "" s ∙ ap (String.◌∷◌ c) (nil-append s)), h, y)
      | inr n ↦ rw n (rw n h)
    ]

-- Of the path of a page, the part that is taken ends in a slash and the file has none; without a slash
-- it is the root.
pub get_base_path_lem :
    (path : String)
    → (ends_slash (get_base_path path) ≡ true)
      × ((get_base_path path ≡ "/") × (has_slash path ≡ false)
          ⊎ (file : String) × (path ≡ get_base_path path <> file) × (has_slash file ≡ false))
unfolding get_base_path
get_base_path_lem path = by_part (up_to_slash path) (up_to_slash-Splits path)
  where
    by_part :
        (o : Option String)
        → Splits path o
        → let base : String = elim o [ none ↦ "/" | some folder ↦ folder ] in
          (ends_slash base ≡ true)
          × ((base ≡ "/") × (has_slash path ≡ false)
              ⊎ (file : String) × (path ≡ base <> file) × (has_slash file ≡ false))
    by_part none h = (refl, inl (refl, h))
    by_part (some folder) (file, e, h, k) = (k, inr (file, e, h))
