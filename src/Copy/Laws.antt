-- ===== src/Copy/Laws.antt =====
-- What the copy of an entry leaves alone, and how a file is read below a tree.
use satosa_saml2spid.Base.{
  String, ◌≡◌, refl, sym, ap, ◌∙◌, inl, inr, Bool, true, false, not, ◌&&◌, ◌||◌, Option, none, some,
  List, [], ◌∷◌, ◌==◌, eq_iff, eq_refl, Bool-cases, Ended, done, threw, and_then-eq-done, arith,
}
use satosa_saml2spid.Copy.{
  Tree, file, dir, Entries, end, entry, find, put, copy_file, within, copy_into, is_end, copy_entry,
  copy_dir,
}

pub find-put_self : (k : String) (t : Tree) (es : Entries) → find k (put k t es) ≡ some t
unfolding find put
find-put_self k t end = rw (eq_refl k) refl
find-put_self k t (entry name u es) = elim (Bool-cases (name == k)) [
  | inl y ↦ rw y (rw y refl)
  | inr n ↦ rw n (rw n (find-put_self k t es))
]

find-put_other :
    (k j : String) (t : Tree) (es : Entries) → (k == j) ≡ false → find j (put k t es) ≡ find j es
unfolding find put
find-put_other k j t end n = rw n refl
find-put_other k j t (entry name u es) n = elim (Bool-cases (name == k)) [
  | inl y ↦ rw ((eq_iff name k).0 y, eq_refl k) (rw n refl)
  | inr d ↦ rw d (elim (Bool-cases (name == j)) [
    | inl y ↦ rw y refl
    | inr e ↦ rw e (find-put_other k j t es n)
  ])
]

-- The text of the file at a path below a tree.
unfoldable pub read_tree : Option Tree → List String → Option String
unfolding find
read_tree none path = none
read_tree (some (file s)) [] = some s
read_tree (some (file s)) (name ∷ path) = none
read_tree (some (dir es)) [] = none
read_tree (some (dir es)) (name ∷ path) = read_tree (find name es) path

abbrev pub or_file : Option String → Option String → Option String
or_file none b = b
or_file (some s) b = some s

unfoldable pub has_name : String → Entries → Bool
has_name k end = false
has_name k (entry name t es) = name == k || has_name k es

-- No directory has a name twice.
unfoldable mutual
  pub unique_tree : Tree → Bool
  unique_tree (file s) = true
  unique_tree (dir es) = unique es

  pub unique : Entries → Bool
  unique end = true
  unique (entry name t es) = not (has_name name es) && unique_tree t && unique es

pub within-eq-done :
    (name : String) (dest : Entries) (m : Ended Entries) (out : Entries)
    → within name dest m ≡ done out
    → (es : Entries) × (m ≡ done es) × (put name (dir es) dest ≡ out)
unfolding within
within-eq-done name dest (done es) out h = (es, refl, cc)
within-eq-done name dest (threw e es) out h = cc

copy_into-other :
    (message name j : String) (copy : Entries → Ended Entries) (nothing : Bool) (o : Option Tree)
    (dest out : Entries)
    → copy_into message name copy nothing o dest ≡ done out
    → (name == j) ≡ false
    → find j out ≡ find j dest
unfolding copy_into
copy_into-other message name j copy nothing none dest out h n =
    let (es, e, p) = within-eq-done name dest (copy end) out h in
    ap (find j) (sym p) ∙ find-put_other name j (dir es) dest n
copy_into-other message name j copy nothing (some (dir ds)) dest out h n =
    let (es, e, p) = within-eq-done name dest (copy ds) out h in
    ap (find j) (sym p) ∙ find-put_other name j (dir es) dest n
copy_into-other message name j copy true (some (file s)) dest out h n = ap (find j) (cc)
copy_into-other message name j copy false (some (file s)) dest out h n = cc

copy_file-other :
    (content name j : String) (o : Option Tree) (dest out : Entries)
    → copy_file content name o dest ≡ done out
    → (name == j) ≡ false
    → find j out ≡ find j dest
unfolding copy_file
copy_file-other content name j none dest out h n =
    let p : put name (file content) dest ≡ out = cc in
    ap (find j) (sym p) ∙ find-put_other name j (file content) dest n
copy_file-other content name j (some (file s)) dest out h n =
    let p : put name (file content) dest ≡ out = cc in
    ap (find j) (sym p) ∙ find-put_other name j (file content) dest n
copy_file-other content name j (some (dir ds)) dest out h n = cc

-- An entry that is copied leaves the others alone.
pub copy_entry-other :
    (t : Tree) (name j : String) (dest out : Entries)
    → copy_entry t name dest ≡ done out
    → (name == j) ≡ false
    → find j out ≡ find j dest
unfolding copy_entry
copy_entry-other (file content) name j dest out h n =
    copy_file-other content name j (find name dest) dest out h n
copy_entry-other (dir es) name j dest out h n =
    copy_into-other "ENOTDIR" name j (copy_dir es) (is_end es) (find name dest) dest out h n

pub copy_dir-other :
    (es : Entries) (j : String) (dest out : Entries)
    → copy_dir es dest ≡ done out
    → has_name j es ≡ false
    → find j out ≡ find j dest
unfolding copy_dir has_name
copy_dir-other end j dest out h n = ap (find j) (cc)
copy_dir-other (entry name t es) j dest out h n =
    let (mid, e, k) = and_then-eq-done (copy_entry t name dest) (copy_dir es) out h in
    copy_dir-other es j mid out k (ground arith)
    ∙ copy_entry-other t name j dest mid e (ground arith)
