-- ===== src/Wallet/Cards/LearnMore.antt =====
-- The "learn more" block of a wallet card, which `SHOW_CARD_LEARN_MORE` switches off, and its toggle.
use satosa_saml2spid.Base.{
  String, ◌<>◌, ◌≡◌, refl, Bool, true, false, Option, [], ◌∷◌, ◌++◌, if◌then◌else◌, Bool-cases, inl,
  inr,
}
use satosa_saml2spid.Dom.Tree.{Node, el, text_nodes}
use satosa_saml2spid.Eid.Bundle.{Bundle, read, or_else, text_of}
use satosa_saml2spid.Eid.Entries.{truthy_or}
use satosa_saml2spid.Eid.LearnMore.{arrow_icon}

abbrev pub show_card_learn_more : Bool
show_card_learn_more = false

-- The link to the address of the wallet, with its icon.
unfoldable pub how_to_get_link : Bundle → String → Option String → Node
how_to_get_link r base_path url =
    el "a"
      (("href", truthy_or url "#")
        ∷ (
          "class",
          "wallet-how-to-get-link text-decoration-none d-inline-flex align-items-center gap-1 mt-2",
        )
        ∷ [])
      (text_nodes (or_else (read r "learn_more" "how_to_get") "Scopri come ottenerlo")
        ++ (el "svg" (("class", "icon icon-sm ms-1") ∷ ("aria-hidden", "true") ∷ [])
              (el "use" (("href", base_path <> "svg/sprites.svg#it-external-link") ∷ []) [] ∷ [])
            ∷ []))

unfoldable pub learn_more_block : Bundle → String → Option String → Option String → Node
unfolding how_to_get_link arrow_icon
learn_more_block r base_path description url = el "div" (("class", "wallet-learn-more") ∷ []) (
    el "a" (("href", "#") ∷ ("class", "eid-learn-more-toggle") ∷ [])
      (text_nodes (or_else (read r "learn_more" "link") "Scopri di più") ++ (arrow_icon ∷ []))
    ∷ el "div" (("class", "eid-learn-more-content") ∷ []) (
        el "p" (("class", "text-muted small mb-0 mt-2") ∷ []) (text_nodes (text_of description))
        ∷ how_to_get_link r base_path url
        ∷ [])
    ∷ [])

-- The toggle of the block: the class `expanded`, the class `is-open` of what it shows, and the inline
-- height of its card.
pub record Toggle : Type 0 where
  pub expanded : Bool
  pub is_open : Bool
  pub height : String

-- Its `click` listener.
unfoldable pub click : Toggle → Toggle
click s =
    if s.expanded
    then record { expanded = false; is_open = false; height = "" }
    else record { expanded = true; is_open = true; height = "auto" }

-- After a click the block is open exactly where the toggle is expanded, with the height of its card free
-- exactly there, whatever there was before.
click_lem :
    (s : Toggle)
    → ((click s).is_open ≡ (click s).expanded)
      × ((click s).height ≡ (if (click s).expanded then "auto" else ""))
unfolding click
click_lem s = elim (Bool-cases s.expanded) [ inl y ↦ rw y (refl, refl) | inr n ↦ rw n (refl, refl) ]
