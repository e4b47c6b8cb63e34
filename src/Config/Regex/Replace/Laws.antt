-- ===== src/Config/Regex/Replace/Laws.antt =====
-- What a replacement leaves alone, and replacement texts in which a value has no `$`.
use Prim.Native.Char.{Char, code}
use text.Mathlib.TextLemmas.{nil-append, cons-append, append-nil as text-nil}
use satosa_saml2spid.Base.{
  String, ℕ, zero, suc, ◌≤◌, ◌<>◌, ◌≡◌, refl, ap, sym, ◌∙◌, inl, inr, Bool, true, false, ◌||◌, none,
  some, List, [], ◌∷◌, eqb, Bool-cases, Option-cases, arith,
}
use satosa_saml2spid.Config.Regex.{Pattern, concat, Match, exec, test}
use satosa_saml2spid.Config.Regex.First.{Occurs, exec-Occurs}
use satosa_saml2spid.Config.Regex.Replace.{
  Replacer, put_match, replace_first, Parts, outside, digit, one_digit, two_digits, is_digit,
  group_at, expand, by_text,
}

-- Where the pattern reads nothing, the text stays as it is.
pub replace_first-none :
    (ps : Pattern) (f : Replacer) (s : String) → test ps s ≡ false → replace_first ps f s ≡ s
unfolding replace_first test
replace_first-none ps f s h = ground arith

-- Otherwise the first place is replaced, and nothing around it.
pub replace_first-some :
    (ps : Pattern) (f : Replacer) (s : String)
    → test ps s ≡ true
    → (m : Match) × Occurs ps none s m
      × (replace_first ps f s ≡ m.before <> f m.before m.texts m.after <> m.after)
unfolding replace_first test put_match
replace_first-some ps f s h = elim (Option-cases (exec ps s)) [
  | inl n ↦ ground arith
  | inr (m, e) ↦ (m, exec-Occurs ps s m e, rw (e, replace_first) refl)
]

-- The place that is replaced is the one that `exec` finds.
pub replace_first-exec :
    (ps : Pattern) (f : Replacer) (s : String)
    → test ps s ≡ true
    → (m : Match) × (exec ps s ≡ some m)
      × (replace_first ps f s ≡ m.before <> f m.before m.texts m.after <> m.after)
unfolding replace_first test put_match
replace_first-exec ps f s h = elim (Option-cases (exec ps s)) [
  | inl n ↦ ground arith
  | inr (m, e) ↦ (m, e, rw (e, replace_first) refl)
]

unfoldable pub has_dollar : String → Bool
has_dollar String.[] = false
has_dollar (String.◌∷◌ c s) = eqb (code c) b'$' || has_dollar s

-- A text without `$` stands for itself.
pub expand-text :
    (p : Parts) (v t : String)
    → has_dollar v ≡ false
    → expand p outside (v <> t) ≡ v <> expand p outside t
unfolding expand has_dollar
expand-text p String.[] t h = rw (nil-append, nil-append) refl
expand-text p (String.◌∷◌ c v) t h =
    let other : eqb (code c) b'$' ≡ false = ground arith in
    rw (cons-append c v t, other, expand, cons-append c v (expand p outside t))
      (ap (λ x. String.◌∷◌ c x) (expand-text p v t (ground arith)))

group_at-far : (g g' : String) (n : ℕ) → 3 ≤ n → group_at n (g ∷ g' ∷ []) ≡ none
group_at-far g g' zero h = cc
group_at-far g g' (suc zero) h = ground arith
group_at-far g g' (suc (suc zero)) h = ground arith
group_at-far g g' (suc (suc (suc n))) h = refl

-- `$1` is the first of two groups, also in front of a digit.
two_digits-far :
    (p : Parts) (g g' : String) (c : Char) → p.groups ≡ g ∷ g' ∷ [] → two_digits p "1" c ≡ none
two_digits-far p g g' c e = elim (Bool-cases (is_digit (code c))) [
  | inl y ↦ rw (y, two_digits, e) (group_at-far g g' _ (omega arith))
  | inr n ↦ rw (n, two_digits) refl
]

dollar_one : (x : String) → "$1" <> x ≡ String.◌∷◌ "$" (String.◌∷◌ "1" x)
dollar_one x =
    cons-append "$" "1" x
    ∙ ap (λ y. String.◌∷◌ "$" y) (cons-append "1" "" x ∙ ap (λ y. String.◌∷◌ "1" y) (nil-append x))

digit-first :
    (p : Parts) (g g' t : String)
    → p.groups ≡ g ∷ g' ∷ []
    → expand p (digit "1") t ≡ g <> expand p outside t
unfolding expand one_digit
digit-first p g g' String.[] e = rw e (sym (text-nil g))
digit-first p g g' (String.◌∷◌ c t) e = rw (two_digits-far p g g' c e, expand, e) refl

expand-first :
    (p : Parts) (g g' t : String)
    → p.groups ≡ g ∷ g' ∷ []
    → expand p outside ("$1" <> t) ≡ g <> expand p outside t
unfolding expand
expand-first p g g' t e = ap (expand p outside) (dollar_one t) ∙ digit-first p g g' t e

-- `$1…$2` around a value without `$`.
pub by_text-around :
    (groups : List String → List String) (v before after g g' : String) (ts : List String)
    → has_dollar v ≡ false
    → groups ts ≡ g ∷ g' ∷ []
    → by_text groups ("$1" <> v <> "$2") before ts after ≡ g <> v <> g'
unfolding by_text expand one_digit
by_text-around groups v before after g g' ts h e =
    let p : Parts = record {
      prefix = before;
      matched = concat ts;
      suffix = after;
      groups = groups ts;
    } in
    expand-first p g g' (v <> "$2") e
    ∙ ap (λ x. g <> x) (expand-text p v "$2" h ∙ ap (λ x. v <> x) (rw e refl))
