-- ===== src/Eid/Entries/Laws.antt =====
-- The merged card stands once, where the first CIE entry stood, and every other entry is kept in order.
use satosa_saml2spid.Base.{
  ◌⊎◌, String, ◌≡◌, refl, ap, Bool, true, false, not, none, some, List, [], ◌∷◌, ◌++◌, all, filter,
  arith, find_key, Bool-cases, inl, inr,
}
use satosa_saml2spid.Eid.Bundle.{Eid, entries}
use satosa_saml2spid.Eid.Entries.{
  Card, single, merge_cie, is_cie_key, merge_loop, values, entries_for_row, get_eid_entries_for_row,
}

abbrev pub no_cie : List (String × Eid) → Bool
no_cie es = all (λ e. not (is_cie_key e.0)) es

abbrev pub others : List (String × Eid) → List (String × Eid)
others es = filter (λ e. not (is_cie_key e.0)) es

-- Behind the merged card every CIE entry is left out.
merge_loop_inserted :
    (m : Card) (es : List (String × Eid)) → merge_loop m true es ≡ values (others es)
unfolding merge_loop
merge_loop_inserted m [] = refl
merge_loop_inserted m ((k, v) ∷ es) = elim (Bool-cases (is_cie_key k)) [
  | inl c ↦ rw (c, merge_loop) (merge_loop_inserted m es)
  | inr n ↦ rw (n, merge_loop) (ap (single v ∷◌) (merge_loop_inserted m es))
]

merge_loop_first :
    (m : Card) (pre post : List (String × Eid)) (k : String) (v : Eid)
    → no_cie pre ≡ true
    → is_cie_key k ≡ true
    → merge_loop m false (pre ++ (k, v) ∷ post) ≡ values pre ++ m ∷ values (others post)
unfolding merge_loop
merge_loop_first m [] post k v n c = rw (c, merge_loop) (ap (m ∷◌) (merge_loop_inserted m post))
merge_loop_first m ((j, w) ∷ pre) post k v n c = elim (Bool-cases (is_cie_key j)) [
  | inl d ↦ ground arith
  | inr d ↦ rw (d, merge_loop) (ap (single w ∷◌) (merge_loop_first m pre post k v (ground arith) c))
]

-- With both CIE entries the row has the entries before the first of them, the merged card, and
-- every later entry that is not one of them, in the order of the locale file.
pub get_eid_entries_for_row-merge :
    (pre post : List (String × Eid)) (k : String) (v cie cie_oidc : Eid)
    → no_cie pre ≡ true
    → is_cie_key k ≡ true
    → find_key "cie" (pre ++ (k, v) ∷ post) ≡ some cie
    → find_key "cie_oidc" (pre ++ (k, v) ∷ post) ≡ some cie_oidc
    → get_eid_entries_for_row (entries (pre ++ (k, v) ∷ post))
      ≡ values pre ++ merge_cie cie cie_oidc ∷ values (others post)
unfolding get_eid_entries_for_row entries_for_row
get_eid_entries_for_row-merge pre post k v cie cie_oidc n c h1 h2 =
    ground (arith, merge_loop_first (merge_cie cie cie_oidc) pre post k v n c)

-- With at most one of them, every entry has a card of its own, in order.
pub get_eid_entries_for_row-plain :
    (es : List (String × Eid))
    → (find_key "cie" es ≡ none) ⊎ (find_key "cie_oidc" es ≡ none)
    → get_eid_entries_for_row (entries es) ≡ values es
unfolding get_eid_entries_for_row entries_for_row
get_eid_entries_for_row-plain es h = ground arith
