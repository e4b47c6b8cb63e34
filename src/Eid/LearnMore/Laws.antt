-- ===== src/Eid/LearnMore/Laws.antt =====
-- Links, identifiers and references of the "learn more" panel.
use satosa_saml2spid.Base.{
  String, ◌≡◌, refl, Bool, true, false, ◌&&◌, Option, none, some, ok, Ensures, Ensures-bind,
  Ensures-ok, returned, List, [], ◌∷◌, ◌++◌, ◌==◌, if◌then◌else◌, find_key,
}
use satosa_saml2spid.Dom.Tree.{Node, text_nodes, every, every_child, nodes, children_if}
use satosa_saml2spid.Eid.Bundle.{Eid, Bundle, text_of}
use satosa_saml2spid.Eid.LearnMore.{create_learn_more, is_given, learn_more_panel, new_window_link}

-- A link that opens in a new window cannot reach the page that opened it.
abbrev pub is_safe : String → List (String × String) → Bool
is_safe tag attrs = elim (find_key "target" attrs) [
  | none ↦ true
  | some t ↦ elim (find_key "rel" attrs) [ none ↦ false | some rel ↦ rel == "noopener noreferrer" ]
]

every_child-text_nodes :
    (p : String → List (String × String) → Bool) (s : String) (ns : List Node)
    → every_child p (nodes (text_nodes s ++ ns)) ≡ every_child p (nodes ns)
unfolding every
every_child-text_nodes p String.[] ns = refl
every_child-text_nodes p (String.◌∷◌ c s) ns = refl

pub every_child-text_nodes_only :
    (p : String → List (String × String) → Bool) (s : String)
    → every_child p (nodes (text_nodes s)) ≡ true
unfolding every
every_child-text_nodes_only p String.[] = refl
every_child-text_nodes_only p (String.◌∷◌ c s) = refl

pub new_window_link-safe :
    (href class : String) (label : Option String) (r : Bundle)
    → every is_safe (new_window_link href class label r) ≡ true
unfolding new_window_link every find_key
new_window_link-safe href class none r = refl
new_window_link-safe href class (some s) r = every_child-text_nodes is_safe s _

learn_more_panel-safe :
    (to_lower : String → String) (r : Bundle) (eid : Eid) (title_id : String)
    (toggle_label cta_label : Option String) (descr : String)
    → every is_safe (learn_more_panel to_lower r eid title_id toggle_label cta_label descr) ≡ true
unfolding learn_more_panel every find_key
learn_more_panel-safe to_lower r eid title_id toggle_label cta_label descr =
    rw (every_child-text_nodes_only is_safe (text_of toggle_label))
      (inline_cta (is_given eid.learn_more_link))
  where
    inline_cta :
        (given : Bool)
        → (every_child is_safe (
              nodes (
                children_if given (
                  new_window_link (text_of eid.learn_more_link) "eid-find-how-link" cta_label r
                  ∷ [])))
            && true)
          ≡ true
    inline_cta false = refl
    inline_cta true =
        rw (new_window_link-safe (text_of eid.learn_more_link) "eid-find-how-link" cta_label r) refl

-- What a "learn more" element holds, if there is one, passes a test.
abbrev pub Passes : (Node → Bool) → Option Node → Type 0
Passes p none = Unit
Passes p (some n) = p n ≡ true

Passes-if :
    (p : Node → Bool) (b c : Bool) (m n : Node)
    → p m ≡ true
    → p n ≡ true
    → Passes p (if b then some m else if c then some n else none)
Passes-if p true c m n hm hn = hm
Passes-if p false true m n hm hn = hn
Passes-if p false false m n hm hn = tt

pub create_learn_more-Passes :
    (to_lower : String → String) (r : Bundle) (eid : Eid) (card_title_id : String)
    → Ensures (Passes (every is_safe)) (create_learn_more to_lower r eid card_title_id)
unfolding create_learn_more
create_learn_more-Passes to_lower r eid card_title_id = Ensures-bind _ _ λ toggle_label _.
    Ensures-bind _ _ λ find_label _. Ensures-bind _ _ λ cta_label _. returned _ (
      Passes-if (every is_safe) _ _ _ _
        (learn_more_panel-safe to_lower r eid _ toggle_label cta_label
          (text_of eid.learn_more_descr))
        (new_window_link-safe (text_of eid.learn_more_link) "d-block mt-2" cta_label r))

-- Every link of the element that opens in a new window carries `rel="noopener noreferrer"`.
pub create_learn_more-safe :
    (to_lower : String → String) (r : Bundle) (eid : Eid) (card_title_id : String) (n : Node)
    → create_learn_more to_lower r eid card_title_id ≡ ok (some n)
    → every is_safe n ≡ true
create_learn_more-safe to_lower r eid card_title_id n h =
    Ensures-ok _ (some n) (create_learn_more-Passes to_lower r eid card_title_id) h
