-- ===== src/Copy/Files.antt =====
-- After a copy, each file is the one of the source, and where the source has none, the one that was
-- there.
use satosa_saml2spid.Base.{
  String, ◌≡◌, refl, sym, ap, subst, ◌∙◌, inl, inr, true, false, Option, none, some, List, [], ◌∷◌,
  ◌==◌, eq_iff, Bool-cases, done, and_then-eq-done, arith,
}
use satosa_saml2spid.Copy.{
  Tree, file, dir, Entries, end, entry, find, put, copy_file, copy_into, is_end, copy_entry,
  copy_dir,
}
use satosa_saml2spid.Copy.Laws.{
  find-put_self, read_tree, or_file, has_name, unique_tree, unique, within-eq-done,
  copy_entry-other, copy_dir-other,
}

-- A path below a directory that is copied, with the directory that is there before and after it.
abbrev Overlays : Entries → Entries → Entries → Type 0
Overlays es dest out =
    (name : String) (path : List String)
    → read_tree (find name out) path
      ≡ or_file (read_tree (find name es) path) (read_tree (find name dest) path)

copied_file :
    (content name : String) (o : Option Tree) (dest out : Entries) (path : List String)
    → find name dest ≡ o
    → copy_file content name o dest ≡ done out
    → read_tree (find name out) path
      ≡ or_file (read_tree (some (file content)) path) (read_tree o path)
unfolding copy_file read_tree
copied_file content name none dest out [] e h =
    let p : put name (file content) dest ≡ out = cc in
    ap (λ x. read_tree (find name x) []) (sym p)
    ∙ ap (λ x. read_tree x []) (find-put_self name (file content) dest)
copied_file content name none dest out (next ∷ path) e h =
    let p : put name (file content) dest ≡ out = cc in
    ap (λ x. read_tree (find name x) (next ∷ path)) (sym p)
    ∙ ap (λ x. read_tree x (next ∷ path)) (find-put_self name (file content) dest)
copied_file content name (some (file s)) dest out [] e h =
    let p : put name (file content) dest ≡ out = cc in
    ap (λ x. read_tree (find name x) []) (sym p)
    ∙ ap (λ x. read_tree x []) (find-put_self name (file content) dest)
copied_file content name (some (file s)) dest out (next ∷ path) e h =
    let p : put name (file content) dest ≡ out = cc in
    ap (λ x. read_tree (find name x) (next ∷ path)) (sym p)
    ∙ ap (λ x. read_tree x (next ∷ path)) (find-put_self name (file content) dest)
copied_file content name (some (dir ds)) dest out path e h = cc

-- A directory that was there, or a new one, with the copied entries in it.
copied_within :
    (name : String) (es before after dest : Entries) (path : List String)
    → Overlays es before after
    → read_tree (find name (put name (dir after) dest)) path
      ≡ or_file (read_tree (some (dir es)) path) (read_tree (some (dir before)) path)
unfolding read_tree
copied_within name es before after dest [] k =
    ap (λ x. read_tree x []) (find-put_self name (dir after) dest)
copied_within name es before after dest (next ∷ path) k =
    ap (λ x. read_tree x (next ∷ path)) (find-put_self name (dir after) dest) ∙ k next path

new_dir : (path : List String) → read_tree (some (dir end)) path ≡ none
unfolding read_tree find
new_dir [] = refl
new_dir (next ∷ path) = refl

no_tree : (path : List String) → read_tree none path ≡ none
unfolding read_tree
no_tree [] = refl
no_tree (next ∷ path) = refl

copied_dir :
    (name : String) (es dest out : Entries) (o : Option Tree) (path : List String)
    → ((before after : Entries) → copy_dir es before ≡ done after → Overlays es before after)
    → find name dest ≡ o
    → copy_into "ENOTDIR" name (copy_dir es) (is_end es) o dest ≡ done out
    → read_tree (find name out) path ≡ or_file (read_tree (some (dir es)) path) (read_tree o path)
unfolding copy_into
copied_dir name es dest out none path k e h =
    let (ds, d, p) = within-eq-done name dest (copy_dir es end) out h in
    ap (λ x. read_tree (find name x) path) (sym p)
    ∙ copied_within name es end ds dest path (k end ds d)
    ∙ ap (or_file (read_tree (some (dir es)) path)) (new_dir path ∙ sym (no_tree path))
copied_dir name es dest out (some (dir before)) path k e h =
    let (ds, d, p) = within-eq-done name dest (copy_dir es before) out h in
    ap (λ x. read_tree (find name x) path) (sym p)
    ∙ copied_within name es before ds dest path (k before ds d)
copied_dir name end dest out (some (file s)) path k e h =
    let p : dest ≡ out = cc in
    ap (λ x. read_tree (find name x) path) (sym p)
    ∙ ap (λ x. read_tree x path) e
    ∙ sym (ap (λ x. or_file x (read_tree (some (file s)) path)) (new_dir path))
copied_dir name (entry m t es) dest out (some (file s)) path k e h = cc

mutual
  unfolding copy_entry copy_dir unique unique_tree find

  copy_entry-file :
      (t : Tree) (name : String) (dest out : Entries) (path : List String)
      → unique_tree t ≡ true
      → copy_entry t name dest ≡ done out
      → read_tree (find name out) path
        ≡ or_file (read_tree (some t) path) (read_tree (find name dest) path)
  copy_entry-file (file content) name dest out path u h =
      copied_file content name (find name dest) dest out path refl h
  copy_entry-file (dir es) name dest out path u h =
      copied_dir name es dest out (find name dest) path
        (λ before after d. copy_dir-file es before after u d) refl h

  copy_dir-file :
      (es dest out : Entries)
      → unique es ≡ true
      → copy_dir es dest ≡ done out
      → (name : String) (path : List String)
      → read_tree (find name out) path
        ≡ or_file (read_tree (find name es) path) (read_tree (find name dest) path)
  copy_dir-file end dest out u h name path =
      let p : dest ≡ out = cc in
      ap (λ x. read_tree (find name x) path) (sym p)
      ∙ sym (ap (λ x. or_file x (read_tree (find name dest) path)) (no_tree path))
  copy_dir-file (entry m t es) dest out u h name path =
      let (mid, e, k) = and_then-eq-done (copy_entry t m dest) (copy_dir es) out h in
      elim (Bool-cases (m == name)) [
        | inl y ↦
            let same = (eq_iff m name).0 y in
            rw y (
              ap (λ x. read_tree x path)
                (copy_dir-other es name mid out k
                  (subst (λ x. has_name x es ≡ false) same (ground arith)))
              ∙ subst
                  (λ x.
                    read_tree (find x mid) path
                    ≡ or_file (read_tree (some t) path) (read_tree (find x dest) path))
                  same (copy_entry-file t m dest mid path (ground arith) e))
        | inr n ↦ rw n (
            copy_dir-file es mid out (ground arith) k name path
            ∙ ap (λ x. or_file (read_tree (find name es) path) (read_tree x path))
                (copy_entry-other t m name dest mid e n))
      ]

-- Every path below a copied directory reads as in the source, and as before where the source has no
-- file there, if the copy ends without an exception and no directory of the source has a name twice.
pub copy_dir-read :
    (es dest out : Entries) (name : String) (path : List String)
    → unique es ≡ true
    → copy_dir es dest ≡ done out
    → read_tree (find name out) path
      ≡ or_file (read_tree (find name es) path) (read_tree (find name dest) path)
copy_dir-read es dest out name path u h = copy_dir-file es dest out u h name path
