-- ===== src/Eid/Cards/Button/Classes.antt =====
-- `classList` over the text of a `class` attribute.
use Prim.Native.Char.{code}
use satosa_saml2spid.Base.{
  String, ◌<>◌, Bool, none, some, List, [], ◌∷◌, ◌==◌, if◌then◌else◌, any, is_space, find_key,
}
use satosa_saml2spid.Dom.Page.{set_entry}

-- The text up to the first space, and the tokens behind it.
unfoldable pub split_spaces : String → String × List String
split_spaces String.[] = ("", [])
split_spaces (String.◌∷◌ c s) =
    let (word, rest) = split_spaces s in
    if is_space (code c) then ("", word ∷ rest) else (String.◌∷◌ c word, rest)

unfoldable pub contains : String → String → Bool
unfolding split_spaces
contains token class = let (word, rest) = split_spaces class in any (λ t. t == token) (word ∷ rest)

-- `classList.add(token)`, on the attributes of an element.
unfoldable pub add : String → List (String × String) → List (String × String)
unfolding contains
add token attrs = elim (find_key "class" attrs) [
  | none ↦ set_entry "class" token attrs
  | some class ↦
      if contains token class then attrs else set_entry "class" (class <> " " <> token) attrs
]
