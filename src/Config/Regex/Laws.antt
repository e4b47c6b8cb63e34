-- ===== src/Config/Regex/Laws.antt =====
-- The matcher against a description of what a pattern reads, in which no order of tries is left.
use Prim.Native.Char.{Char, code}
use text.Mathlib.TextEquality.{Char-path}
use text.Mathlib.TextLemmas.{append_assoc as text_assoc, nil-append, cons-append}
use satosa_saml2spid.Base.{
  String, ℕ, ◌<>◌, ◌≡◌, refl, ap, sym, subst, ◌∙◌, Bool, true, false, not, ◌&&◌, ◌||◌, Option, none,
  some, List, [], ◌∷◌, ◌==◌, eq_iff, eq_refl, eqb, any, if◌then◌else◌, is_truthy, arith,
}
use satosa_saml2spid.Config.Regex.{
  Class, Piece, lit, choice, one, many, lazy, maybe, boundary, not_behind, not_ahead, at_end,
  Pattern, first_code, Found, Next, with_text, with_char, or_try, match_lit, match_choice,
  match_many, match_lazy, match_one, allows, match_piece, match_at, concat,
}

-- The character before what follows a text.
unfoldable pub last_code : Option ℕ → String → Option ℕ
last_code behind String.[] = behind
last_code behind (String.◌∷◌ c s) = last_code (some (code c)) s

unfoldable pub all_in : Class → String → Bool
all_in p String.[] = true
all_in p (String.◌∷◌ c s) = p (code c) && all_in p s

abbrev pub is_one : Class → String → Bool
is_one p String.[] = false
is_one p (String.◌∷◌ c s) = p (code c) && not (is_truthy s)

-- A piece may read a text, between the characters before it and after it.
unfoldable pub fits : Piece → Option ℕ → String → Option ℕ → Bool
unfolding all_in
fits (lit u) behind t ahead = t == u
fits (choice us) behind t ahead = any (λ u. t == u) us
fits (one p) behind t ahead = is_one p t
fits (many p) behind t ahead = all_in p t
fits (lazy p) behind t ahead = all_in p t
fits (maybe p) behind t ahead = is_one p t || not (is_truthy t)
fits boundary behind t ahead = not (is_truthy t) && allows boundary behind ahead
fits (not_behind p) behind t ahead = not (is_truthy t) && allows (not_behind p) behind ahead
fits (not_ahead p) behind t ahead = not (is_truthy t) && allows (not_ahead p) behind ahead
fits at_end behind t ahead = not (is_truthy t) && allows at_end behind ahead

-- A pattern may read texts in front of a rest.
abbrev pub Reads : Pattern → Option ℕ → List String → String → Type 0
Reads [] behind [] rest = Unit
Reads [] behind (t ∷ ts) rest = ⊥
Reads (p ∷ ps) behind [] rest = ⊥
Reads (p ∷ ps) behind (t ∷ ts) rest =
    (fits p behind t (first_code (concat ts <> rest)) ≡ true)
    × Reads ps (last_code behind t) ts rest

abbrev pub Holds : (List String → String → Type 0) → Found → Type 0
Holds Q none = Unit
Holds Q (some (ts, rest)) = Q ts rest

abbrev pub Continues : Type 1
Continues = Option ℕ → List String → String → Type 0

-- What a matcher reads is at the text, and `R` holds of it.
abbrev pub IsSound : Continues → Next → Type 0
IsSound R next =
    (behind : Option ℕ) (s : String)
    → Holds (λ ts rest. R behind ts rest × (s ≡ concat ts <> rest)) (next behind s)

-- The same with a first text of which `P` holds, between the characters around it.
abbrev pub Reading :
    (Option ℕ → String → Option ℕ → Type 0)
    → Continues
    → Option ℕ
    → String
    → List String
    → String
    → Type 0
Reading P R behind s [] rest = ⊥
Reading P R behind s (t ∷ ts) rest =
    P behind t (first_code (concat ts <> rest))
    × R (last_code behind t) ts rest
    × (s ≡ t <> (concat ts <> rest))

Holds-or_try :
    (Q : List String → String → Type 0) (f g : Found) → Holds Q f → Holds Q g → Holds Q (or_try f g)
unfolding or_try
Holds-or_try Q none g h k = k
Holds-or_try Q (some x) g h k = h

Holds-if :
    (Q : List String → String → Type 0) (b : Bool) (f g : Found)
    → (b ≡ true → Holds Q f)
    → Holds Q g
    → Holds Q (if b then f else g)
Holds-if Q true f g h k = h refl
Holds-if Q false f g h k = k

module _ (P : Option ℕ → String → Option ℕ → Type 0) (R : Continues) where
  -- Nothing is read, where that is allowed.
  with_text-Holds :
      (behind : Option ℕ) (s : String) (f : Found)
      → P behind "" (first_code s)
      → Holds (λ ts rest. R behind ts rest × (s ≡ concat ts <> rest)) f
      → Holds (Reading P R behind s) (with_text "" f)
  unfolding with_text last_code
  with_text-Holds behind s none a h = tt
  with_text-Holds behind s (some (ts, rest)) a (r, e) =
      (subst (λ x. P behind "" (first_code x)) e a, r, e ∙ sym (nil-append _))

  -- A character is read before what the piece reads behind it.
  with_char-Holds :
      (P' : Option ℕ → String → Option ℕ → Type 0) (behind : Option ℕ) (c : Char) (s : String)
      (f : Found)
      → ((t : String) (a : Option ℕ) → P' (some (code c)) t a → P behind (String.◌∷◌ c t) a)
      → Holds (Reading P' R (some (code c)) s) f
      → Holds (Reading P R behind (String.◌∷◌ c s)) (with_char c f)
  unfolding with_char last_code
  with_char-Holds P' behind c s none k h = tt
  with_char-Holds P' behind c s (some ([], rest)) k h = elim h [ ]
  with_char-Holds P' behind c s (some (t ∷ ts, rest)) k (a, r, e) =
      (k t _ a, r, ap (λ x. String.◌∷◌ c x) e ∙ sym (cons-append c t _))

  -- One character is read.
  one_text-Holds :
      (behind : Option ℕ) (c : Char) (s : String) (f : Found)
      → ((a : Option ℕ) → P behind (String.◌∷◌ c "") a)
      → Holds (λ ts rest. R (some (code c)) ts rest × (s ≡ concat ts <> rest)) f
      → Holds (Reading P R behind (String.◌∷◌ c s)) (with_text (String.◌∷◌ c "") f)
  unfolding with_text last_code
  one_text-Holds behind c s none a h = tt
  one_text-Holds behind c s (some (ts, rest)) a (r, e) = (
    a _,
    r,
    ap (λ x. String.◌∷◌ c x) e ∙ sym (cons-append c "" _ ∙ ap (λ x. String.◌∷◌ c x) (nil-append _)),
  )

pub Holds-map :
    {Q Q' : List String → String → Type 0} (f : Found)
    → ((ts : List String) (rest : String) → Q ts rest → Q' ts rest)
    → Holds Q f
    → Holds Q' f
Holds-map none k h = tt
Holds-map (some (ts, rest)) k h = k ts rest h

module _ (P P' : Option ℕ → String → Option ℕ → Type 0) (R : Continues) where
  Reading-map :
      (behind : Option ℕ) (s : String) (f : Found)
      → ((t : String) (a : Option ℕ) → P behind t a → P' behind t a)
      → Holds (Reading P R behind s) f
      → Holds (Reading P' R behind s) f
  Reading-map behind s none k h = tt
  Reading-map behind s (some ([], rest)) k h = h
  Reading-map behind s (some (t ∷ ts, rest)) k (p, r, e) = (k t _ p, r, e)

-- The texts that a piece may read, as a predicate.
abbrev pub Fits : Piece → Option ℕ → String → Option ℕ → Type 0
Fits p behind t ahead = fits p behind t ahead ≡ true

cons-eq :
    (c d : Char) (t u : String)
    → eqb (code c) (code d) ≡ true
    → (t == u) ≡ true
    → (String.◌∷◌ c t == String.◌∷◌ d u) ≡ true
cons-eq c d t u e h = rw (Char-path c d (ground arith), (eq_iff t u).0 h) (eq_refl (String.◌∷◌ d u))

module _ (R : Continues) (next : Next) (n : IsSound R next) where
  match_lit-Holds :
      (u : String) (behind : Option ℕ) (s : String)
      → Holds (Reading (Fits (lit u)) R behind s) (match_lit u next behind s)
  unfolding match_lit fits
  match_lit-Holds String.[] behind s =
      with_text-Holds (Fits (lit "")) R behind s (next behind s) refl (n behind s)
  match_lit-Holds (String.◌∷◌ d u) behind String.[] = tt
  match_lit-Holds (String.◌∷◌ d u) behind (String.◌∷◌ c s) =
      Holds-if _ (eqb (code c) (code d)) _ _
        (λ e.
          with_char-Holds (Fits (lit (String.◌∷◌ d u))) R (Fits (lit u)) behind c s
            (match_lit u next (some (code c)) s) (λ t a h. cons-eq c d t u e h)
            (match_lit-Holds u (some (code c)) s))
        tt

  match_choice-Holds :
      (us : List String) (behind : Option ℕ) (s : String)
      → Holds (Reading (Fits (choice us)) R behind s) (match_choice us next behind s)
  unfolding match_choice fits
  match_choice-Holds [] behind s = tt
  match_choice-Holds (u ∷ us) behind s =
      Holds-or_try (Reading (Fits (choice (u ∷ us))) R behind s) (match_lit u next behind s)
        (match_choice us next behind s)
        (Reading-map (Fits (lit u)) (Fits (choice (u ∷ us))) R behind s (match_lit u next behind s)
          (λ t a h. ground arith) (match_lit-Holds u behind s))
        (Reading-map (Fits (choice us)) (Fits (choice (u ∷ us))) R behind s
          (match_choice us next behind s) (λ t a h. ground arith) (match_choice-Holds us behind s))

  match_many-Holds :
      (p : Class) (behind : Option ℕ) (s : String)
      → Holds (Reading (Fits (many p)) R behind s) (match_many p next behind s)
  unfolding match_many fits all_in
  match_many-Holds p behind String.[] =
      with_text-Holds (Fits (many p)) R behind "" (next behind "") refl (n behind "")
  match_many-Holds p behind (String.◌∷◌ c s) =
      let here =
        with_text-Holds (Fits (many p)) R behind (String.◌∷◌ c s) (next behind (String.◌∷◌ c s))
          refl (n behind (String.◌∷◌ c s)) in
      Holds-if _ (p (code c)) _ _
        (λ e.
          Holds-or_try (Reading (Fits (many p)) R behind (String.◌∷◌ c s))
            (with_char c (match_many p next (some (code c)) s))
            (with_text "" (next behind (String.◌∷◌ c s)))
            (with_char-Holds (Fits (many p)) R (Fits (many p)) behind c s
              (match_many p next (some (code c)) s) (λ t a h. ground arith)
              (match_many-Holds p (some (code c)) s))
            here)
        here

  match_lazy-Holds :
      (p : Class) (behind : Option ℕ) (s : String)
      → Holds (Reading (Fits (lazy p)) R behind s) (match_lazy p next behind s)
  unfolding match_lazy fits all_in
  match_lazy-Holds p behind String.[] =
      with_text-Holds (Fits (lazy p)) R behind "" (next behind "") refl (n behind "")
  match_lazy-Holds p behind (String.◌∷◌ c s) =
      let here =
        with_text-Holds (Fits (lazy p)) R behind (String.◌∷◌ c s) (next behind (String.◌∷◌ c s))
          refl (n behind (String.◌∷◌ c s)) in
      Holds-if _ (p (code c)) _ _
        (λ e.
          Holds-or_try (Reading (Fits (lazy p)) R behind (String.◌∷◌ c s))
            (with_text "" (next behind (String.◌∷◌ c s)))
            (with_char c (match_lazy p next (some (code c)) s)) here
            (with_char-Holds (Fits (lazy p)) R (Fits (lazy p)) behind c s
              (match_lazy p next (some (code c)) s) (λ t a h. ground arith)
              (match_lazy-Holds p (some (code c)) s)))
        here

  match_one-Holds :
      (p : Class) (behind : Option ℕ) (s : String)
      → Holds (Reading (Fits (one p)) R behind s) (match_one p next behind s)
  unfolding match_one fits with_text
  match_one-Holds p behind String.[] = tt
  match_one-Holds p behind (String.◌∷◌ c s) =
      Holds-if _ (p (code c)) _ _
        (λ e.
          one_text-Holds (Fits (one p)) R behind c s (next (some (code c)) s) (λ a. ground arith)
            (n (some (code c)) s))
        tt

  -- A piece that reads nothing.
  match_test-Holds :
      (p : Piece) (behind : Option ℕ) (s : String)
      → (allows p behind (first_code s) ≡ true → Fits p behind "" (first_code s))
      → Holds
          (Reading (Fits p) R behind s)
          (if allows p behind (first_code s) then with_text "" (next behind s) else none)
  match_test-Holds p behind s k =
      Holds-if _ (allows p behind (first_code s)) _ _
        (λ e. with_text-Holds (Fits p) R behind s (next behind s) (k e) (n behind s)) tt

  pub match_piece-Holds :
      (p : Piece) (behind : Option ℕ) (s : String)
      → Holds (Reading (Fits p) R behind s) (match_piece p next behind s)
  unfolding match_piece fits
  match_piece-Holds (lit u) behind s = match_lit-Holds u behind s
  match_piece-Holds (choice us) behind s = match_choice-Holds us behind s
  match_piece-Holds (one p) behind s = match_one-Holds p behind s
  match_piece-Holds (many p) behind s = match_many-Holds p behind s
  match_piece-Holds (lazy p) behind s = match_lazy-Holds p behind s
  match_piece-Holds (maybe p) behind s =
      Holds-or_try (Reading (Fits (maybe p)) R behind s) (match_one p next behind s)
        (with_text "" (next behind s))
        (Reading-map (Fits (one p)) (Fits (maybe p)) R behind s (match_one p next behind s)
          (λ t a h. ground arith) (match_one-Holds p behind s))
        (with_text-Holds (Fits (maybe p)) R behind s (next behind s) refl (n behind s))
  match_piece-Holds boundary behind s = match_test-Holds boundary behind s (λ e. e)
  match_piece-Holds (not_behind p) behind s = match_test-Holds (not_behind p) behind s (λ e. e)
  match_piece-Holds (not_ahead p) behind s = match_test-Holds (not_ahead p) behind s (λ e. e)
  match_piece-Holds at_end behind s = match_test-Holds at_end behind s (λ e. e)

Reading-cons :
    (p : Piece) (ps : Pattern) (behind : Option ℕ) (s : String) (ts : List String) (rest : String)
    → Reading (Fits p) (Reads ps) behind s ts rest
    → Reads (p ∷ ps) behind ts rest × (s ≡ concat ts <> rest)
unfolding concat
Reading-cons p ps behind s [] rest h = elim h [ ]
Reading-cons p ps behind s (t ∷ ts) rest (f, r, e) =
    ((f, r), e ∙ sym (text_assoc t (concat ts) rest))

-- What is matched is what the pattern may read, and it stands at the place.
pub match_at-Holds : (ps : Pattern) → IsSound (Reads ps) (match_at ps)
unfolding match_at concat
match_at-Holds [] behind s = (tt, sym (nil-append s))
match_at-Holds (p ∷ ps) behind s =
    Holds-map {Q = Reading (Fits p) (Reads ps) behind s} (match_piece p (match_at ps) behind s)
      (Reading-cons p ps behind s)
      (match_piece-Holds (Reads ps) (match_at ps) (match_at-Holds ps) p behind s)
