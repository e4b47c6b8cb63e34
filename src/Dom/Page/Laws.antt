-- ===== src/Dom/Page/Laws.antt =====
-- Writes to elements that are found by different selectors do not meet.
use satosa_saml2spid.Base.{
  fun_ext, String, ◌≡◌, refl, ap, sym, ◌∙◌, Bool, true, false, not, ◌&&◌, Option, none, some, List,
  [], ◌∷◌, ◌==◌, eq_iff, eq_refl, if◌then◌else◌, find_key, all, All, arith, Bool-cases, inl, inr,
}
use satosa_saml2spid.Dom.Page.{
  El, set_entry, set_attr, set_text, Page, on_el, is_there, update, update_all,
}

abbrev Write : Type 0
Write = String × (El → El)

-- The selectors of a list of writes are pairwise different.
unfoldable pub apart : List Write → Bool
apart [] = true
apart ((k, f) ∷ ws) = all (λ w. not (w.0 == k)) ws && apart ws

-- What the writes do to the element of a selector.
unfoldable pub write_at : String → List Write → El → El
write_at j [] = λ e. e
write_at j ((k, f) ∷ ws) = if k == j then f else write_at j ws

update_self : (k : String) (f : El → El) (page : Page) → update k f page k ≡ on_el f (page k)
unfolding update
update_self k f page = rw (eq_refl k) refl

update_ne :
    (k j : String) (f : El → El) (page : Page) → (k == j) ≡ false → update k f page j ≡ page j
unfolding update
update_ne k j f page n = rw n refl

pub update_all_other :
    (j : String) (ws : List Write) (page : Page)
    → all (λ w. not (w.0 == j)) ws ≡ true
    → update_all ws page j ≡ page j
unfolding update_all
update_all_other j [] page h = refl
update_all_other j ((k, f) ∷ ws) page h =
    update_all_other j ws (update k f page) (ground arith) ∙ update_ne k j f page (ground arith)

on_el-id : (o : Option El) → on_el (λ e. e) o ≡ o
on_el-id none = refl
on_el-id (some e) = refl

-- Each element is written by the write of its selector, and by no other.
pub update_all-apart :
    (j : String) (ws : List Write) (page : Page)
    → apart ws ≡ true
    → update_all ws page j ≡ on_el (write_at j ws) (page j)
unfolding update_all apart write_at
update_all-apart j [] page h = sym (on_el-id (page j))
update_all-apart j ((k, f) ∷ ws) page h = elim (Bool-cases (k == j)) [
  | inl e ↦
      rw (← (eq_iff k j).0 e, eq_refl k)
        (update_all_other k ws (update k f page) (ground arith) ∙ update_self k f page)
  | inr n ↦ rw n (
      update_all-apart j ws (update k f page) (ground arith)
      ∙ ap (on_el (write_at j ws)) (update_ne k j f page n))
]

-- Writes that can be repeated.
abbrev pub Settle : List Write → Type 0
Settle ws = All (λ (w : Write). (e : El) → w.1 (w.1 e) ≡ w.1 e) ws

write_at-Settle :
    (j : String) (ws : List Write) (e : El)
    → Settle ws
    → write_at j ws (write_at j ws e) ≡ write_at j ws e
unfolding write_at
write_at-Settle j [] e h = refl
write_at-Settle j ((k, f) ∷ ws) e h = elim (Bool-cases (k == j)) [
  | inl y ↦ rw y (h.0 e)
  | inr n ↦ rw n (write_at-Settle j ws e h.1)
]

on_el-settle :
    (f : El → El) (o : Option El) → ((e : El) → f (f e) ≡ f e) → on_el f (on_el f o) ≡ on_el f o
on_el-settle f none h = refl
on_el-settle f (some e) h = ap some (h e)

pub update_all_twice :
    (ws : List Write) (page : Page)
    → apart ws ≡ true
    → Settle ws
    → update_all ws (update_all ws page) ≡ update_all ws page
update_all_twice ws page a s = fun_ext λ j.
    update_all-apart j ws (update_all ws page) a
    ∙ ap (on_el (write_at j ws)) (update_all-apart j ws page a)
    ∙ on_el-settle (write_at j ws) (page j) (λ e. write_at-Settle j ws e s)
    ∙ sym (update_all-apart j ws page a)

-- A second write of the same value to the same attribute, or of the same text, changes nothing.
set_entry_twice :
    (k v : String) (m : List (String × String)) → set_entry k v (set_entry k v m) ≡ set_entry k v m
unfolding set_entry
set_entry_twice k v [] = rw (eq_refl k) refl
set_entry_twice k v ((j, w) ∷ m) = elim (Bool-cases (j == k)) [
  | inl y ↦ rw (y, set_entry, y) refl
  | inr n ↦ rw (n, set_entry, n) (ap ((j, w) ∷◌) (set_entry_twice k v m))
]

pub set_attr_twice : (k v : String) (e : El) → set_attr k v (set_attr k v e) ≡ set_attr k v e
unfolding set_attr
set_attr_twice k v e = λ i. record e { attrs = set_entry_twice k v e.attrs i }

pub set_text_twice : (s : String) (e : El) → set_text s (set_text s e) ≡ set_text s e
unfolding set_text
set_text_twice s e = refl

-- After two attributes are written, the first is written again.
pub find_key-set_entry_self :
    (k v : String) (m : List (String × String)) → find_key k (set_entry k v m) ≡ some v
unfolding find_key set_entry
find_key-set_entry_self k v [] = rw (eq_refl k) refl
find_key-set_entry_self k v ((j, w) ∷ m) = elim (Bool-cases (j == k)) [
  | inl y ↦ rw (y, find_key, y) refl
  | inr n ↦ rw (n, find_key, n) (find_key-set_entry_self k v m)
]

set_entry_same :
    (k v : String) (m : List (String × String)) → find_key k m ≡ some v → set_entry k v m ≡ m
unfolding find_key set_entry
set_entry_same k v [] h = cc
set_entry_same k v ((j, w) ∷ m) h = ground (arith, set_entry_same k v m)

pub find_key-set_entry :
    (j k v : String) (m : List (String × String))
    → (k == j) ≡ false
    → find_key j (set_entry k v m) ≡ find_key j m
unfolding find_key set_entry
find_key-set_entry j k v [] h = ground arith
find_key-set_entry j k v ((i, w) ∷ m) h =
    ground (arith, eq_iff i k, eq_iff i j, eq_iff k j, find_key-set_entry j k v m)

pub set_attr_same : (k v : String) (e : El) → find_key k e.attrs ≡ some v → set_attr k v e ≡ e
unfolding set_attr
set_attr_same k v e h = λ i. record e { attrs = set_entry_same k v e.attrs h i }

-- An element stays in the page when it is written.
pub is_there-update :
    (k j : String) (f : El → El) (page : Page) → is_there (update k f page j) ≡ is_there (page j)
unfolding update
is_there-update k j f page = elim (Bool-cases (k == j)) [
  | inl e ↦ rw e (by_element (page j))
  | inr n ↦ rw n refl
]
  where
    by_element : (o : Option El) → is_there (on_el f o) ≡ is_there o
    by_element none = refl
    by_element (some e) = refl

pub is_there-update_all :
    (j : String) (ws : List Write) (page : Page)
    → is_there (update_all ws page j) ≡ is_there (page j)
unfolding update_all
is_there-update_all j [] page = refl
is_there-update_all j ((k, f) ∷ ws) page =
    is_there-update_all j ws (update k f page) ∙ is_there-update k j f page
