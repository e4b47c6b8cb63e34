-- ===== src/Config/Regex/First.antt =====
-- `exec` finds the first place at which a pattern may read something, and `test` decides that there
-- is one.
use Prim.Native.Char.{Char, code}
use text.Mathlib.TextLemmas.{nil-append, cons-append}
use satosa_saml2spid.Base.{
  String, ℕ, suc, ◌≤◌, ◌<>◌, ◌≡◌, refl, ap, sym, subst, ◌∙◌, ◌↔◌, true, Option, none, some, List,
  arith,
}
use satosa_saml2spid.Config.Regex.{
  size, Found, Pattern, match_at, concat, Match, here_or, behind_char, exec_from, exec, test,
  is_match,
}
use satosa_saml2spid.Config.Regex.Laws.{last_code, Reads, Holds, match_at-Holds}
use satosa_saml2spid.Config.Regex.Complete.{found, found-match_at}

-- What the pattern may read at a place of a text.
pub record Occurs (ps : Pattern) (behind : Option ℕ) (s : String) (m : Match) : Type 0 where
  pub placed : s ≡ m.before <> (concat m.texts <> m.after)
  pub read : Reads ps (last_code behind m.before) m.texts m.after

abbrev pub OnMatch : (Match → Type 0) → Option Match → Type 0
OnMatch Q none = Unit
OnMatch Q (some m) = Q m

here_or-Occurs :
    (ps : Pattern) (behind : Option ℕ) (s : String) (f : Found) (later : Option Match)
    → Holds (λ ts rest. Reads ps behind ts rest × (s ≡ concat ts <> rest)) f
    → OnMatch (Occurs ps behind s) later
    → OnMatch (Occurs ps behind s) (here_or f later)
unfolding here_or last_code
here_or-Occurs ps behind s none later h k = k
here_or-Occurs ps behind s (some (ts, rest)) later (r, e) k = record {
  placed = e ∙ sym (nil-append _);
  read = r;
}

behind_char-Occurs :
    (ps : Pattern) (behind : Option ℕ) (c : Char) (s : String) (found : Option Match)
    → OnMatch (Occurs ps (some (code c)) s) found
    → OnMatch (Occurs ps behind (String.◌∷◌ c s)) (behind_char c found)
unfolding behind_char last_code
behind_char-Occurs ps behind c s none o = tt
behind_char-Occurs ps behind c s (some m) o = record {
  placed = ap (λ x. String.◌∷◌ c x) o.placed ∙ sym (cons-append c m.before _);
  read = o.read;
}

-- What is found occurs in the text.
exec_from-Occurs :
    (ps : Pattern) (behind : Option ℕ) (s : String)
    → OnMatch (Occurs ps behind s) (exec_from ps behind s)
unfolding exec_from
exec_from-Occurs ps behind String.[] =
    here_or-Occurs ps behind "" (match_at ps behind "") none (match_at-Holds ps behind "") tt
exec_from-Occurs ps behind (String.◌∷◌ c s) =
    here_or-Occurs ps behind (String.◌∷◌ c s) (match_at ps behind (String.◌∷◌ c s))
      (behind_char c (exec_from ps (some (code c)) s)) (match_at-Holds ps behind (String.◌∷◌ c s))
      (behind_char-Occurs ps behind c s (exec_from ps (some (code c)) s)
        (exec_from-Occurs ps (some (code c)) s))

-- A match is found, with at most so many characters before it.
abbrev pub IsWithin : ℕ → Option Match → Type 0
IsWithin n none = ⊥
IsWithin n (some m) = size m.before ≤ n

exec_from-here :
    (ps : Pattern) (behind : Option ℕ) (s : String)
    → found (match_at ps behind s) ≡ true
    → IsWithin 0 (exec_from ps behind s)
unfolding exec_from here_or
exec_from-here ps behind String.[] h = ground arith
exec_from-here ps behind (String.◌∷◌ c s) h = ground arith

exec_from-later :
    (ps : Pattern) (behind : Option ℕ) (c : Char) (s : String) (n : ℕ)
    → IsWithin n (exec_from ps (some (code c)) s)
    → IsWithin (suc n) (exec_from ps behind (String.◌∷◌ c s))
unfolding exec_from here_or behind_char
exec_from-later ps behind c s n h = ground arith

-- A pattern that may read something at a place is found by `exec` there or before it.
pub exec_from-IsWithin :
    (ps : Pattern) (behind : Option ℕ) (before : String) (ts : List String) (rest : String)
    → Reads ps (last_code behind before) ts rest
    → IsWithin (size before) (exec_from ps behind (before <> (concat ts <> rest)))
unfolding last_code
exec_from-IsWithin ps behind String.[] ts rest r =
    rw nil-append
      (exec_from-here ps behind (concat ts <> rest) (found-match_at ps behind ts rest r))
exec_from-IsWithin ps behind (String.◌∷◌ c before) ts rest r =
    rw (cons-append c before (concat ts <> rest)) (
      exec_from-later ps behind c (before <> (concat ts <> rest)) (size before)
        (exec_from-IsWithin ps (some (code c)) before ts rest r))

-- No place of the text comes before the one that is found.
Occurs-IsWithin :
    (ps : Pattern) (s : String) (other : Match)
    → Occurs ps none s other
    → IsWithin (size other.before) (exec ps s)
unfolding exec
Occurs-IsWithin ps s other o =
    rw o.placed (exec_from-IsWithin ps none other.before other.texts other.after o.read)

pub exec-Occurs : (ps : Pattern) (s : String) (m : Match) → exec ps s ≡ some m → Occurs ps none s m
unfolding exec
exec-Occurs ps s m e = subst (OnMatch (Occurs ps none s)) e (exec_from-Occurs ps none s)

-- `exec` returns a place at which the pattern may read what was read, and no earlier place is one.
pub exec-first :
    (ps : Pattern) (s : String) (m other : Match)
    → exec ps s ≡ some m
    → Occurs ps none s other
    → Occurs ps none s m × (size m.before ≤ size other.before)
exec-first ps s m other e o =
    (exec-Occurs ps s m e, subst (IsWithin (size other.before)) e (Occurs-IsWithin ps s other o))

test-found :
    (P : Match → Type 0) (o : Option Match) → OnMatch P o → is_match o ≡ true → (m : Match) × P m
test-found P none h e = cc
test-found P (some m) h e = (m, h)

test-within : (n : ℕ) (o : Option Match) → IsWithin n o → is_match o ≡ true
test-within n none h = elim h [ ]
test-within n (some m) h = refl

-- `test` holds exactly where the pattern may read something at some place of the text.
pub test_iff : (ps : Pattern) (s : String) → (test ps s ≡ true) ↔ ((m : Match) × Occurs ps none s m)
unfolding test exec
test_iff ps s = (
  test-found (Occurs ps none s) (exec_from ps none s) (exec_from-Occurs ps none s),
  λ (m, o). test-within (size m.before) (exec ps s) (Occurs-IsWithin ps s m o),
)
