-- ===== src/Dom/Tree.antt =====
-- Created nodes. A reflected property (`className`, `href`, …) is held as its attribute; `html` is
-- the text that an assignment to `innerHTML` hands to the parser.
use satosa_saml2spid.Base.{
  ◌<>◌, ℕ, suc, length, ◌≡◌, refl, ap, String, Bool, true, false, ◌&&◌, none, some, List, [], ◌∷◌,
  ◌++◌, find_key,
}

mutual
  pub data Node : Type 0 where
    element : String → List (String × String) → Nodes → Node
    text : String → Node
    html : String → Node

  pub data Nodes : Type 0 where
    nil : Nodes
    cons : Node → Nodes → Nodes

abbrev pub nodes : List Node → Nodes
nodes [] = nil
nodes (n ∷ ns) = cons n (nodes ns)

-- An element with its attributes and children.
abbrev pub el : String → List (String × String) → List Node → Node
el tag attrs children = element tag attrs (nodes children)

abbrev pub children_if : Bool → List Node → List Node
children_if true ns = ns
children_if false ns = []

-- `textContent = s`: no child for the empty text.
abbrev pub text_nodes : String → List Node
text_nodes String.[] = []
text_nodes (String.◌∷◌ c s) = text (String.◌∷◌ c s) ∷ []

-- Every element that the scripts create in a tree passes a test on its tag and attributes. The elements
-- that the parser makes of a text given to `innerHTML` are not among them.
unfoldable mutual
  pub every : (String → List (String × String) → Bool) → Node → Bool
  every p (element tag attrs ns) = p tag attrs && every_child p ns
  every p (text s) = true
  every p (html s) = true

  pub every_child : (String → List (String × String) → Bool) → Nodes → Bool
  every_child p nil = true
  every_child p (cons n ns) = every p n && every_child p ns

-- The `id`s of a tree, in document order.
unfoldable pub id_of : List (String × String) → List String
id_of attrs = elim (find_key "id" attrs) [ none ↦ [] | some i ↦ i ∷ [] ]

unfoldable mutual
  pub ids : Node → List String
  ids (element tag attrs ns) = id_of attrs ++ child_ids ns
  ids (text s) = []
  ids (html s) = []

  pub child_ids : Nodes → List String
  child_ids nil = []
  child_ids (cons n ns) = ids n ++ child_ids ns

-- The children of an element.
abbrev pub count_nodes : Nodes → ℕ
count_nodes nil = 0
count_nodes (cons n ns) = suc (count_nodes ns)

abbrev pub child_count : Node → ℕ
child_count (element tag attrs ns) = count_nodes ns
child_count (text s) = 0
child_count (html s) = 0

pub child_count-nodes : (ns : List Node) → count_nodes (nodes ns) ≡ length ns
child_count-nodes [] = refl
child_count-nodes (n ∷ ns) = ap suc (child_count-nodes ns)

-- `textContent` of what stands in an element; the parts of a parsed text are not looked into.
unfoldable mutual
  pub text_of_node : Node → String
  text_of_node (element tag attrs ns) = text_of_nodes ns
  text_of_node (text s) = s
  text_of_node (html s) = s

  pub text_of_nodes : Nodes → String
  text_of_nodes nil = ""
  text_of_nodes (cons n ns) = text_of_node n <> text_of_nodes ns
