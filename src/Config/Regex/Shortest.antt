-- ===== src/Config/Regex/Shortest.antt =====
-- A lazy repetition before a character reads as little as it can: no such character stands in what it reads.
use Prim.Native.Char.{Char, code}
use satosa_saml2spid.Base.{
  String, ◌<>◌, ℕ, zero, suc, ◌≡◌, refl, subst, true, not, Bool-cases, inl, inr, Option, none, some,
  List, [], ◌∷◌, eqb, arith,
}
use satosa_saml2spid.Config.Regex.{
  Class, Piece, lit, lazy, Found, Pattern, with_text, with_char, or_try, match_at, match_piece,
  concat, Match, here_or, behind_char, exec_from, exec,
}
use satosa_saml2spid.Config.Regex.Laws.{
  all_in, Holds, Holds-map, IsSound, Reading, Fits, Reads, match_at-Holds, match_piece-Holds,
}
use satosa_saml2spid.Config.Regex.First.{OnMatch}

-- What holds of the text at a position, if there is one.
abbrev pub Nth : (String → Type 0) → ℕ → List String → Type 0
Nth P n [] = Unit
Nth P zero (t ∷ ts) = P t
Nth P (suc n) (t ∷ ts) = Nth P n ts

module _ (P : String → Type 0) where
  -- What a pattern reads, at each place, has `P` at a position.
  abbrev pub Has : ℕ → Pattern → Type 0
  Has n ps = (behind : Option ℕ) (s : String) → Holds (λ ts rest. Nth P n ts) (match_at ps behind s)

  -- A piece in front moves the position by one.
  pub piece-Has : (p : Piece) (ps : Pattern) (n : ℕ) → Has n ps → Has (suc n) (p ∷ ps)
  unfolding match_at
  piece-Has p ps n h behind s =
      Holds-map {Q = Reading (Fits p) R behind s} (match_piece p (match_at ps) behind s) moved
        (match_piece-Holds R (match_at ps) sound p behind s)
    where
      R : Option ℕ → List String → String → Type 0
      R behind ts rest = Nth P n ts × Reads ps behind ts rest

      combine :
          (behind : Option ℕ) (s : String) (f : Found)
          → Holds (λ ts rest. Nth P n ts) f
          → Holds (λ ts rest. Reads ps behind ts rest × (s ≡ concat ts <> rest)) f
          → Holds (λ ts rest. R behind ts rest × (s ≡ concat ts <> rest)) f
      combine behind s none h k = tt
      combine behind s (some (ts, rest)) h (r, e) = ((h, r), e)

      sound : IsSound R (match_at ps)
      sound behind s =
          combine behind s (match_at ps behind s) (h behind s) (match_at-Holds ps behind s)

      moved :
          (ts : List String) (rest : String)
          → Reading (Fits p) R behind s ts rest
          → Nth P (suc n) ts
      moved [] rest h = tt
      moved (t ∷ ts) rest (f, r, e) = r.0

abbrev pub not_lt : Class
not_lt c = not (eqb c b'<')

abbrev pub any_char : Class
any_char c = true

longer :
    (c : Char) (f : Found)
    → not_lt (code c) ≡ true
    → Holds (λ ts rest. Nth (λ t. all_in not_lt t ≡ true) 0 ts) f
    → Holds (λ ts rest. Nth (λ t. all_in not_lt t ≡ true) 0 ts) (with_char c f)
unfolding with_char all_in
longer c none n h = tt
longer c (some ([], rest)) n h = ground arith
longer c (some (t ∷ ts, rest)) n h = ground arith

pub lazy-Has : Has (λ t. all_in not_lt t ≡ true) 0 (lazy any_char ∷ lit "<" ∷ [])
unfolding match_at match_piece with_text with_char or_try all_in
lazy-Has behind String.[] = tt
lazy-Has behind (String.◌∷◌ c s) = elim (Bool-cases (eqb (code c) b'<')) [
  | inl y ↦ rw y refl
  | inr n ↦ rw n (longer c _ (ground arith) (lazy-Has (some (code c)) s))
]

module _ (Q : List String → Type 0) (ps : Pattern)
    (h : (behind : Option ℕ) (s : String) → Holds (λ ts rest. Q ts) (match_at ps behind s)) where
  here-texts :
      (f : Found) (later : Option Match)
      → Holds (λ ts rest. Q ts) f
      → OnMatch (λ m. Q m.texts) later
      → OnMatch (λ m. Q m.texts) (here_or f later)
  unfolding here_or
  here-texts none later k l = l
  here-texts (some (ts, rest)) later k l = k

  behind-texts :
      (c : Char) (found : Option Match)
      → OnMatch (λ m. Q m.texts) found
      → OnMatch (λ m. Q m.texts) (behind_char c found)
  unfolding behind_char
  behind-texts c none k = tt
  behind-texts c (some m) k = k

  exec_from-texts :
      (behind : Option ℕ) (s : String) → OnMatch (λ m. Q m.texts) (exec_from ps behind s)
  unfolding exec_from
  exec_from-texts behind String.[] = here-texts (match_at ps behind "") none (h behind "") tt
  exec_from-texts behind (String.◌∷◌ c s) =
      here-texts (match_at ps behind (String.◌∷◌ c s)) _ (h behind (String.◌∷◌ c s))
        (behind-texts c (exec_from ps (some (code c)) s) (exec_from-texts (some (code c)) s))

  -- What is found has what is read at each place.
  pub exec-texts : (s : String) (m : Match) → exec ps s ≡ some m → Q m.texts
  unfolding exec
  exec-texts s m e = subst (OnMatch (λ m. Q m.texts)) e (exec_from-texts none s)
