-- ===== src/Base/Trim.antt =====
-- `trim` has nothing left to remove from its own result.
use Prim.Native.Char.{code}
use Prim.Native.String.{String}
use mathlib.Core.Path.{◌≡◌, refl, ap, sym, ◌∙◌}
use mathlib.Core.Logic.{inl, inr}
use mathlib.Core.Bool.{false, not, ◌&&◌}
use satosa_saml2spid.Base.Tests.{Bool-cases}
use satosa_saml2spid.Base.Texts.{is_truthy, is_space, trim_start, trim_end, trim}

not_truthy : (s : String) → is_truthy s ≡ false → s ≡ ""
not_truthy String.[] h = refl
not_truthy (String.◌∷◌ c s) h = cc

trim_start_twice : (s : String) → trim_start (trim_start s) ≡ trim_start s
unfolding trim_start
trim_start_twice String.[] = refl
trim_start_twice (String.◌∷◌ c s) = elim (Bool-cases (is_space (code c))) [
  | inl y ↦ rw y (trim_start_twice s)
  | inr n ↦ rw n (rw n refl)
]

trim_end_twice : (s : String) → trim_end (trim_end s) ≡ trim_end s
unfolding trim_end
trim_end_twice String.[] = refl
trim_end_twice (String.◌∷◌ c s) =
    elim (Bool-cases (is_space (code c) && not (is_truthy (trim_end s)))) [
      | inl y ↦ rw y refl
      | inr n ↦ rw n (rw (trim_end_twice s) (rw n refl))
    ]

trim_start-trim_end : (s : String) → trim_start (trim_end s) ≡ trim_end (trim_start s)
unfolding trim_start trim_end
trim_start-trim_end String.[] = refl
trim_start-trim_end (String.◌∷◌ c s) = elim (Bool-cases (is_space (code c))) [
  | inl y ↦ elim (Bool-cases (is_truthy (trim_end s))) [
    | inl t ↦ rw (y, t) (rw y (trim_start-trim_end s))
    | inr f ↦ rw (y, f) (sym (ap trim_start (not_truthy (trim_end s) f)) ∙ trim_start-trim_end s)
  ]
  | inr n ↦ rw n (rw n refl)
]

pub trim_twice : (s : String) → trim (trim s) ≡ trim s
unfolding trim
trim_twice s =
    ap trim_end (trim_start-trim_end (trim_start s) ∙ ap trim_end (trim_start_twice s))
    ∙ trim_end_twice (trim_start s)
