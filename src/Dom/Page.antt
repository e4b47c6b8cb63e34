-- ===== src/Dom/Page.antt =====
-- The page that a script finds: each element under the selector by which the script looks it up.
pub mod Laws
use satosa_saml2spid.Base.{
  String, Bool, true, false, Option, none, some, List, [], ◌∷◌, ◌==◌, if◌then◌else◌,
}
use satosa_saml2spid.Dom.Tree.{Node, text_nodes}

pub record El : Type 0 where
  pub tag : String
  pub attrs : List (String × String)
  pub content : List Node

-- `setAttribute` and `removeAttribute`.
unfoldable pub set_entry : String → String → List (String × String) → List (String × String)
set_entry k v [] = (k, v) ∷ []
set_entry k v ((j, w) ∷ m) = if j == k then (j, v) ∷ m else (j, w) ∷ set_entry k v m

unfoldable pub remove_entry : String → List (String × String) → List (String × String)
remove_entry k [] = []
remove_entry k ((j, w) ∷ m) = if j == k then m else (j, w) ∷ remove_entry k m

unfoldable pub set_attr : String → String → El → El
unfolding set_entry
set_attr k v e = record e { attrs = set_entry k v e.attrs }

unfoldable pub remove_attr : String → El → El
unfolding remove_entry
remove_attr k e = record e { attrs = remove_entry k e.attrs }

-- `textContent = s`.
unfoldable pub set_text : String → El → El
set_text s e = record e { content = text_nodes s }

-- `getElementById(…)` or `querySelector(…)`, by the selector.
abbrev pub Page : Type 0
Page = String → Option El

abbrev pub on_el : (El → El) → Option El → Option El
on_el f none = none
on_el f (some e) = some (f e)

abbrev pub is_there : Option El → Bool
is_there none = false
is_there (some e) = true

-- `if (el) …`: a write to the element, if it is there.
unfoldable pub update : String → (El → El) → Page → Page
update k f page j = if k == j then on_el f (page j) else page j

-- Writes, one after the other.
unfoldable pub update_all : List (String × (El → El)) → Page → Page
update_all [] page = page
update_all ((k, f) ∷ ws) page = update_all ws (update k f page)
