-- ===== src/Config/Paths/Laws.antt =====
-- What a write at a path reads back, and what it leaves alone.
use satosa_saml2spid.Base.{
  String, ◌≡◌, refl, true, Option, none, some, List, [], ◌∷◌, arith, ◌==◌, eq_iff, Bool-cases, inl,
  inr,
}
use satosa_saml2spid.Json.{Json, null, bool, num, str, arr, obj, Fields, end, lookup}
use satosa_saml2spid.Json.Laws.{lookup-insert, lookup-insert_self, lookup-insert_ne, insert_same}
use satosa_saml2spid.Config.Paths.{children, rebuild, put, get, diverge}

children-rebuild : (o : Option Json) (gs : Fields) → children (some (rebuild o gs)) ≡ gs
unfolding children rebuild
children-rebuild o gs = ground arith

-- What was written is read back.
pub get-put :
    (k : String) (ks : List String) (v : Json) (fs : Fields) → get k ks (put k ks v fs) ≡ some v
unfolding get put
get-put k [] v fs = lookup-insert_self k v fs
get-put k (j ∷ ks) v fs =
    rw (lookup-insert_self, children-rebuild) (get-put j ks v (children (lookup k fs)))

-- A path that diverges from the written one reads as before.
pub get-put-diverge :
    (k : String) (ks : List String) (j : String) (js : List String) (v : Json) (fs : Fields)
    → diverge k ks j js ≡ true
    → get j js (put k ks v fs) ≡ get j js fs
unfolding get put diverge
get-put-diverge k [] j [] v fs h = ground (arith, lookup-insert k j v fs)
get-put-diverge k [] j (j' ∷ js) v fs h = ground (arith, lookup-insert k j v fs)
get-put-diverge k (k' ∷ ks) j [] v fs h =
    ground
      (arith, lookup-insert k j (rebuild (lookup k fs) (put k' ks v (children (lookup k fs)))) fs)
get-put-diverge k (k' ∷ ks) j (j' ∷ js) v fs h = elim (Bool-cases (k == j)) [
  | inl e ↦
      rw (← (eq_iff k j).0 e, lookup-insert_self, children-rebuild)
        (get-put-diverge k' ks j' js v (children (lookup k fs)) (ground arith))
  | inr n ↦ rw (lookup-insert_ne k j _ fs n) refl
]

pub get-end : (k : String) (ks : List String) → get k ks end ≡ none
unfolding get children lookup
get-end k [] = refl
get-end k (j ∷ ks) = get-end j ks

-- A value with something below it is an object, which is rebuilt as it was.
rebuild_same :
    (o : Option Json) (k : String) (ks : List String) (v : Json)
    → get k ks (children o) ≡ some v
    → o ≡ some (rebuild o (children o))
unfolding children rebuild
rebuild_same none k ks v h = ground (arith, get-end k ks)
rebuild_same (some (obj fs)) k ks v h = refl
rebuild_same (some (arr fs)) k ks v h = refl
rebuild_same (some null) k ks v h = ground (arith, get-end k ks)
rebuild_same (some (bool b)) k ks v h = ground (arith, get-end k ks)
rebuild_same (some (num n)) k ks v h = ground (arith, get-end k ks)
rebuild_same (some (str s)) k ks v h = ground (arith, get-end k ks)

-- Writing the value that a path has changes nothing.
pub put_same :
    (k : String) (ks : List String) (v : Json) (fs : Fields)
    → get k ks fs ≡ some v
    → put k ks v fs ≡ fs
unfolding get put
put_same k [] v fs h = insert_same k v fs h
put_same k (j ∷ ks) v fs h =
    rw (put_same j ks v (children (lookup k fs)) h)
      (insert_same k _ fs (rebuild_same (lookup k fs) j ks v h))
