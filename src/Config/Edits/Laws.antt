-- ===== src/Config/Edits/Laws.antt =====
-- The edits of a file: all are there afterwards, nothing else changes, and a second run is a no-op.
use satosa_saml2spid.Base.{
  find_key, All-find_key, String, ◌≡◌, refl, true, some, List, [], ◌∷◌, arith, All, all,
  Option-cases, inl, inr,
}
use satosa_saml2spid.Json.{Json, null, bool, num, str, arr, obj, Fields}
use satosa_saml2spid.Config.Paths.{diverge, split_dot, children, set_by_path}
use satosa_saml2spid.Config.Paths.Laws.{get-put, get-put-diverge, put_same, get-end}
use satosa_saml2spid.Config.Branding.{Branding}
use satosa_saml2spid.Config.Edits.{Edit, build_json_edits, apply_edits, get_by_path, apart, spread}

get_by_path-set_by_path :
    (root : Json) (p : String) (v : Json) {root' : Json}
    → set_by_path root p v ≡ some root'
    → get_by_path root' p ≡ some v
unfolding set_by_path get_by_path children
get_by_path-set_by_path (obj fs) p v h =
    ground (arith, get-put (split_dot p).first (split_dot p).others v fs)
get_by_path-set_by_path (arr fs) p v h =
    ground (arith, get-put (split_dot p).first (split_dot p).others v fs)
get_by_path-set_by_path null p v h = cc
get_by_path-set_by_path (bool b) p v h = cc
get_by_path-set_by_path (num n) p v h = cc
get_by_path-set_by_path (str s) p v h = cc

get_by_path-set_by_path-apart :
    (root : Json) (p q : String) (v : Json) {root' : Json}
    → apart p q ≡ true
    → set_by_path root p v ≡ some root'
    → get_by_path root' q ≡ get_by_path root q
unfolding set_by_path get_by_path children apart
get_by_path-set_by_path-apart (obj fs) p q v a h =
    let k = split_dot p in
    let j = split_dot q in ground (arith, get-put-diverge k.first k.others j.first j.others v fs)
get_by_path-set_by_path-apart (arr fs) p q v a h =
    let k = split_dot p in
    let j = split_dot q in ground (arith, get-put-diverge k.first k.others j.first j.others v fs)
get_by_path-set_by_path-apart null p q v a h = cc
get_by_path-set_by_path-apart (bool b) p q v a h = cc
get_by_path-set_by_path-apart (num n) p q v a h = cc
get_by_path-set_by_path-apart (str s) p q v a h = cc

set_by_path_same :
    (fs : Fields) (p : String) (v : Json)
    → get_by_path (obj fs) p ≡ some v
    → set_by_path (obj fs) p v ≡ some (obj fs)
unfolding set_by_path get_by_path children
set_by_path_same fs p v h = ground (arith, put_same (split_dot p).first (split_dot p).others v fs)

set_by_path_same_arr :
    (fs : Fields) (p : String) (v : Json)
    → get_by_path (arr fs) p ≡ some v
    → set_by_path (arr fs) p v ≡ some (arr fs)
unfolding set_by_path get_by_path children
set_by_path_same_arr fs p v h =
    ground (arith, put_same (split_dot p).first (split_dot p).others v fs)

set_by_path_again :
    (root : Json) (p : String) (v : Json)
    → get_by_path root p ≡ some v
    → set_by_path root p v ≡ some root
unfolding get_by_path children
set_by_path_again (obj fs) p v h = set_by_path_same fs p v h
set_by_path_again (arr fs) p v h = set_by_path_same_arr fs p v h
set_by_path_again null p v h = ground (arith, get-end (split_dot p).first (split_dot p).others)
set_by_path_again (bool b) p v h = ground (arith, get-end (split_dot p).first (split_dot p).others)
set_by_path_again (num n) p v h = ground (arith, get-end (split_dot p).first (split_dot p).others)
set_by_path_again (str s) p v h = ground (arith, get-end (split_dot p).first (split_dot p).others)

-- Every edit of the list reads back.
abbrev pub Holds : List Edit → Json → Type 0
Holds es root = All (λ e. get_by_path root e.dot_path ≡ some e.value) es

-- A path that is apart from every edited one reads as before.
pub get_by_path-apply_edits :
    (es : List Edit) (root : Json) (q : String) {root' : Json}
    → all (λ e. apart e.dot_path q) es ≡ true
    → apply_edits es root ≡ some root'
    → get_by_path root' q ≡ get_by_path root q
unfolding apply_edits
get_by_path-apply_edits [] root q a h = cc
get_by_path-apply_edits (e ∷ es) root q {root'} a h =
    elim (Option-cases (set_by_path root e.dot_path e.value)) [
      | inl n ↦ ground arith
      | inr (root1, s) ↦ ground (
        arith,
        get_by_path-set_by_path-apart root e.dot_path q e.value {root' = root1},
        get_by_path-apply_edits es root1 q {root' = root'},
      )
    ]

-- After the edits of a file, whose paths are pairwise apart, every edit reads back.
pub apply_edits-Holds :
    (es : List Edit) (root : Json) {root' : Json}
    → spread es ≡ true
    → apply_edits es root ≡ some root'
    → Holds es root'
unfolding apply_edits spread
apply_edits-Holds [] root s h = tt
apply_edits-Holds (e ∷ es) root {root'} s h =
    elim (Option-cases (set_by_path root e.dot_path e.value)) [
      | inl n ↦ ground arith
      | inr (root1, st) ↦ ground (
        arith,
        get_by_path-set_by_path root e.dot_path e.value {root' = root1},
        get_by_path-apply_edits es root1 e.dot_path {root' = root'},
        apply_edits-Holds es root1 {root' = root'},
      )
    ]

-- Edits that are there already change nothing, the order of the properties included.
pub apply_edits_same :
    (es : List Edit) (root : Json) → Holds es root → apply_edits es root ≡ some root
unfolding apply_edits
apply_edits_same [] root h = refl
apply_edits_same (e ∷ es) root h =
    rw (set_by_path_again root e.dot_path e.value h.0, apply_edits) (apply_edits_same es root h.1)

-- The edits of each file of `buildJsonEdits` have paths that are pairwise apart.
pub build_json_edits-spread :
    (config : Branding) → All (λ f. spread f.1 ≡ true) (build_json_edits config)
unfolding build_json_edits spread apart split_dot diverge
build_json_edits-spread config = (refl, (refl, (refl, (refl, (refl, (refl, tt))))))

-- A file that the build has edited has every configured value at its path, and a second run leaves
-- it as it is, the order of the properties included.
pub json_edits_settle :
    (config : Branding) (rel : String) (es : List Edit) (root root' : Json)
    → find_key rel (build_json_edits config) ≡ some es
    → apply_edits es root ≡ some root'
    → Holds es root' × (apply_edits es root' ≡ some root')
json_edits_settle config rel es root root' found edited =
    let paths =
      All-find_key (λ fs. spread fs ≡ true) rel (build_json_edits config)
        (build_json_edits-spread config) found in
    let holds = apply_edits-Holds es root paths edited in (holds, apply_edits_same es root' holds)
