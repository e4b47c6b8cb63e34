-- ===== src/Config/Regex/Complete.antt =====
-- Whatever a pattern may read at a place is found there, and `test` decides that it may read
-- something somewhere.
use Prim.Native.Char.{Char, code}
use text.Mathlib.TextLemmas.{append_assoc as text_assoc, nil-append, cons-append}
use satosa_saml2spid.Base.{
  String, ℕ, ◌<>◌, ◌≡◌, refl, subst, inl, inr, Bool, true, false, not, ◌&&◌, ◌||◌, Option, none,
  some, List, [], ◌∷◌, ◌==◌, eq_iff, eqb, any, if◌then◌else◌, is_truthy, Bool-cases, arith,
}
use satosa_saml2spid.Config.Regex.{
  Class, Piece, lit, choice, one, many, lazy, maybe, boundary, not_behind, not_ahead, at_end,
  Pattern, first_code, Found, Next, with_text, with_char, or_try, match_lit, match_choice,
  match_many, match_lazy, match_one, allows, match_piece, match_at, concat,
}
use satosa_saml2spid.Config.Regex.Laws.{last_code, all_in, is_one, fits, Reads}

abbrev pub found : Found → Bool
found none = false
found (some x) = true

found-with_text : (t : String) (f : Found) → found (with_text t f) ≡ found f
unfolding with_text
found-with_text t none = refl
found-with_text t (some (ts, rest)) = refl

found-with_char : (c : Char) (f : Found) → found (with_char c f) ≡ found f
unfolding with_char
found-with_char c none = refl
found-with_char c (some ([], rest)) = refl
found-with_char c (some (t ∷ ts, rest)) = refl

found-or_try : (f g : Found) → found (or_try f g) ≡ (found f || found g)
unfolding or_try
found-or_try none g = refl
found-or_try (some f) g = refl

or_left : (a b : Bool) → a ≡ true → (a || b) ≡ true
or_left a b h = rw h refl

or_right : (a b : Bool) → b ≡ true → (a || b) ≡ true
or_right true b h = refl
or_right false b h = h

eqb_refl : (n : ℕ) → eqb n n ≡ true
eqb_refl n = ground arith

module _ (next : Next) where
  -- What follows a text is found behind it.
  abbrev Follows : Option ℕ → String → String → Type 0
  Follows behind t tail = found (next (last_code behind t) tail) ≡ true

  found-match_lit :
      (u : String) (behind : Option ℕ) (tail : String)
      → Follows behind u tail
      → found (match_lit u next behind (u <> tail)) ≡ true
  unfolding match_lit last_code
  found-match_lit String.[] behind tail h = rw (nil-append, found-with_text) h
  found-match_lit (String.◌∷◌ d u) behind tail h =
      rw (cons-append d u tail, eqb_refl (code d), found-with_char)
        (found-match_lit u (some (code d)) tail h)

  found-match_lit_eq :
      (u t : String) (behind : Option ℕ) (tail : String)
      → (t == u) ≡ true
      → Follows behind t tail
      → found (match_lit u next behind (t <> tail)) ≡ true
  found-match_lit_eq u t behind tail e h =
      let eq = (eq_iff t u).0 e in
      rw eq (found-match_lit u behind tail (subst (λ x. Follows behind x tail) eq h))

  found-match_choice :
      (us : List String) (t : String) (behind : Option ℕ) (tail : String)
      → any (λ u. t == u) us ≡ true
      → Follows behind t tail
      → found (match_choice us next behind (t <> tail)) ≡ true
  unfolding match_choice
  found-match_choice [] t behind tail f h = cc
  found-match_choice (u ∷ us) t behind tail f h =
      rw
        (found-or_try (match_lit u next behind (t <> tail))
          (match_choice us next behind (t <> tail)))
        (elim (Bool-cases (t == u)) [
          | inl y ↦
              or_left (found (match_lit u next behind (t <> tail))) _
                (found-match_lit_eq u t behind tail y h)
          | inr n ↦
              or_right _ (found (match_choice us next behind (t <> tail)))
                (found-match_choice us t behind tail (ground arith) h)
        ])

  module _ (p : Class) where
    -- A repetition may end where it stands.
    many_here :
        (behind : Option ℕ) (s : String)
        → found (next behind s) ≡ true
        → found (match_many p next behind s) ≡ true
    unfolding match_many
    many_here behind String.[] h = rw found-with_text h
    many_here behind (String.◌∷◌ c s) h = elim (Bool-cases (p (code c))) [
      | inl y ↦ rw (y, found-or_try, found-with_text) (or_right _ _ h)
      | inr n ↦ rw (n, found-with_text) h
    ]

    lazy_here :
        (behind : Option ℕ) (s : String)
        → found (next behind s) ≡ true
        → found (match_lazy p next behind s) ≡ true
    unfolding match_lazy
    lazy_here behind String.[] h = rw found-with_text h
    lazy_here behind (String.◌∷◌ c s) h = elim (Bool-cases (p (code c))) [
      | inl y ↦ rw (y, found-or_try, found-with_text) (or_left _ _ h)
      | inr n ↦ rw (n, found-with_text) h
    ]

    found-match_many :
        (t : String) (behind : Option ℕ) (tail : String)
        → all_in p t ≡ true
        → Follows behind t tail
        → found (match_many p next behind (t <> tail)) ≡ true
    unfolding match_many last_code all_in
    found-match_many String.[] behind tail a h = rw nil-append (many_here behind tail h)
    found-match_many (String.◌∷◌ c t) behind tail a h =
        let y : p (code c) ≡ true = ground arith in
        rw (cons-append c t tail, y, found-or_try, found-with_char)
          (or_left _ _ (found-match_many t (some (code c)) tail (ground arith) h))

    found-match_lazy :
        (t : String) (behind : Option ℕ) (tail : String)
        → all_in p t ≡ true
        → Follows behind t tail
        → found (match_lazy p next behind (t <> tail)) ≡ true
    unfolding match_lazy last_code all_in
    found-match_lazy String.[] behind tail a h = rw nil-append (lazy_here behind tail h)
    found-match_lazy (String.◌∷◌ c t) behind tail a h =
        let y : p (code c) ≡ true = ground arith in
        rw (cons-append c t tail, y, found-or_try, found-with_char)
          (or_right _ _ (found-match_lazy t (some (code c)) tail (ground arith) h))

    found-match_one :
        (t : String) (behind : Option ℕ) (tail : String)
        → is_one p t ≡ true
        → Follows behind t tail
        → found (match_one p next behind (t <> tail)) ≡ true
    unfolding match_one last_code
    found-match_one String.[] behind tail a h = cc
    found-match_one (String.◌∷◌ c String.[]) behind tail a h =
        let y : p (code c) ≡ true = ground arith in
        rw (cons-append c "" tail, nil-append, y, found-with_text) h
    found-match_one (String.◌∷◌ c (String.◌∷◌ d t)) behind tail a h = ground arith

  found-empty :
      (t : String) (behind : Option ℕ) (tail : String)
      → is_truthy t ≡ false
      → Follows behind t tail
      → found (with_text "" (next behind (t <> tail))) ≡ true
  unfolding last_code
  found-empty String.[] behind tail a h = rw (nil-append, found-with_text) h
  found-empty (String.◌∷◌ c t) behind tail a h = cc

  -- A piece that reads nothing, where it is allowed.
  found-test :
      (p : Piece) (t : String) (behind : Option ℕ) (tail : String)
      → (not (is_truthy t) && allows p behind (first_code tail)) ≡ true
      → Follows behind t tail
      → found (
          if allows p behind (first_code (t <> tail))
          then with_text "" (next behind (t <> tail))
          else none)
        ≡ true
  unfolding last_code
  found-test p String.[] behind tail a h = rw (nil-append, a, found-with_text) h
  found-test p (String.◌∷◌ c t) behind tail a h = cc

  found-match_piece :
      (p : Piece) (t : String) (behind : Option ℕ) (tail : String)
      → fits p behind t (first_code tail) ≡ true
      → Follows behind t tail
      → found (match_piece p next behind (t <> tail)) ≡ true
  unfolding match_piece fits last_code
  found-match_piece (lit u) t behind tail f h = found-match_lit_eq u t behind tail f h
  found-match_piece (choice us) t behind tail f h = found-match_choice us t behind tail f h
  found-match_piece (one p) t behind tail f h = found-match_one p t behind tail f h
  found-match_piece (many p) t behind tail f h = found-match_many p t behind tail f h
  found-match_piece (lazy p) t behind tail f h = found-match_lazy p t behind tail f h
  found-match_piece (maybe p) t behind tail f h = rw found-or_try (elim (Bool-cases (is_one p t)) [
    | inl y ↦
        or_left (found (match_one p next behind (t <> tail))) _
          (found-match_one p t behind tail y h)
    | inr n ↦
        or_right (found (match_one p next behind (t <> tail)))
          (found (with_text "" (next behind (t <> tail))))
          (found-empty t behind tail (ground arith) h)
  ])
  found-match_piece boundary t behind tail f h = found-test boundary t behind tail f h
  found-match_piece (not_behind p) t behind tail f h = found-test (not_behind p) t behind tail f h
  found-match_piece (not_ahead p) t behind tail f h = found-test (not_ahead p) t behind tail f h
  found-match_piece at_end t behind tail f h = found-test at_end t behind tail f h

-- What a pattern may read at a place is found there, or something else is.
pub found-match_at :
    (ps : Pattern) (behind : Option ℕ) (ts : List String) (rest : String)
    → Reads ps behind ts rest
    → found (match_at ps behind (concat ts <> rest)) ≡ true
unfolding match_at concat
found-match_at [] behind [] rest r = refl
found-match_at [] behind (t ∷ ts) rest r = elim r [ ]
found-match_at (p ∷ ps) behind [] rest r = elim r [ ]
found-match_at (p ∷ ps) behind (t ∷ ts) rest (f, r) = rw (text_assoc t (concat ts) rest) (
    found-match_piece (match_at ps) p t behind (concat ts <> rest) f
      (found-match_at ps (last_code behind t) ts rest r))
