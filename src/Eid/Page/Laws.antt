-- ===== src/Eid/Page/Laws.antt =====
-- The page does not stay busy after a load that ends, and says so where it has nothing to show.
use satosa_saml2spid.Base.{
  String, ◌≡◌, refl, ◌∙◌, Bool, true, false, not, ◌&&◌, Option, none, some, Ended, done, threw,
  state_of, and_then, Ends, at_done, at_threw, Ends-and_then, Ends-try_write, Ends-if, List, [],
  ◌∷◌, ◌++◌, if◌then◌else◌, find_key, arith, Bool-cases, inl, inr,
}
use satosa_saml2spid.Dom.Tree.{Node, el, text_nodes}
use satosa_saml2spid.Dom.Page.{El, set_attr, on_el, is_there, update}
use satosa_saml2spid.Dom.Page.Laws.{find_key-set_entry_self, is_there-update, is_there-update_all}
use satosa_saml2spid.Eid.Bundle.{Bundle, check_id, read_in}
use satosa_saml2spid.Eid.Cards.{create_eid_cards_row}
use satosa_saml2spid.Eid.Document.{load_document}
use satosa_saml2spid.Eid.Page.{
  Site, container, heading, on_page, append_cards, clear_cards, set_eid_cards_error,
  set_eid_cards_loading, update_page_heading, load_digital, load_alternative, finish_load,
  load_eid_cards, load_bundle, load_i18next, first_load, eid_error_message, eid_loading_message,
  error_fallback, show_message,
}

-- An attribute of an element that may be there.
abbrev pub attr_of : String → Option El → Option String
attr_of k none = none
attr_of k (some e) = find_key k e.attrs

-- The error message, as the content of the container.
abbrev pub alert : String → List Node
alert message =
    el "p" (("class", "eid-list-state eid-list-state--error") ∷ ("role", "alert") ∷ [])
      (text_nodes message)
    ∷ []

abbrev pub ap_content : Option El → Option (List Node)
ap_content none = none
ap_content (some e) = some e.content

-- The container has `aria-busy="false"`.
abbrev pub IsIdle : Site → Type 0
IsIdle s = attr_of "aria-busy" (s.page container) ≡ some "false"

append-IsIdle : (n : Node) (s : Site) → IsIdle s → IsIdle (append_cards n s)
unfolding append_cards
append-IsIdle n s h = by_container (s.page container) h
  where
    by_container :
        (o : Option El)
        → attr_of "aria-busy" o ≡ some "false"
        → attr_of "aria-busy" (on_el (λ e. record e { content = e.content ++ (n ∷ []) }) o)
          ≡ some "false"
    by_container none h = h
    by_container (some e) h = h

clear-IsIdle : (s : Site) → is_there (s.page container) ≡ true → IsIdle (clear_cards s)
unfolding clear_cards
clear-IsIdle s h = by_container (s.page container) h
  where
    by_container :
        (o : Option El)
        → is_there o ≡ true
        → attr_of "aria-busy"
            (on_el (λ e. record (set_attr "aria-busy" "false" e) { content = [] }) o)
          ≡ some "false"
    by_container none h = cc
    by_container (some e) h = find_key-set_entry_self "aria-busy" "false" e.attrs

pub error-IsIdle :
    (message : String) (s : Site)
    → is_there (s.page container) ≡ true
    → IsIdle (on_page (set_eid_cards_error message) s)
unfolding set_eid_cards_error
error-IsIdle message s h = by_container (s.page container) h
  where
    by_container :
        (o : Option El)
        → is_there o ≡ true
        → attr_of "aria-busy"
            (on_el (show_message "false" "eid-list-state eid-list-state--error" "alert" message) o)
          ≡ some "false"
    by_container none h = cc
    by_container (some e) h = find_key-set_entry_self "aria-busy" "false" e.attrs

finish-IsIdle :
    (to_lower : String → String) (search : String) (r : Bundle) (s : Site)
    → IsIdle s
    → IsIdle (finish_load to_lower search r s)
unfolding finish_load
finish-IsIdle to_lower search r s h =
    elim (Bool-cases (s.loaded_once && is_there (s.page heading))) [
      | inl y ↦ rw y h
      | inr n ↦ rw n h
    ]

-- Whether the container is there is not changed by the heading.
abbrev pub HasContainer : Site → Type 0
HasContainer s = is_there (s.page container) ≡ true

heading-HasContainer :
    (r : Bundle) (s : Site)
    → HasContainer s
    → Ends HasContainer HasContainer (update_page_heading r s)
unfolding update_page_heading update
heading-HasContainer r s h = Ends-if (not (is_there (s.page heading))) (at_done s h) (
    Ends-if (check_id r.digital_id)
      (Ends-try_write (read_in r "titles" "login_digital_identity") _ _ (λ _. h) h)
      (Ends-if (check_id r.alternative_id)
        (Ends-try_write (read_in r "titles" "login_alternative_method") _ _ (λ _. h) h)
        (at_done s h)))

pub IsIdle-HasContainer : (s : Site) → IsIdle s → HasContainer s
IsIdle-HasContainer s h = by_container (s.page container) h
  where
    by_container : (o : Option El) → attr_of "aria-busy" o ≡ some "false" → is_there o ≡ true
    by_container none e = cc
    by_container (some _) e = refl

module _ (to_lower : String → String) (query : String) (r : Bundle) where
  digital-IsIdle :
      (s : Site) → IsIdle s → Ends IsIdle HasContainer (load_digital to_lower query r s)
  unfolding load_digital
  digital-IsIdle s h =
      Ends-and_then
        (Ends-try_write (create_eid_cards_row to_lower query r "digital_id" 2) _ s
          (λ row. append-IsIdle _ s h) (IsIdle-HasContainer s h))
        λ s1 h1. Ends-try_write _ _ s1 (by_info s1 h1) (IsIdle-HasContainer s1 h1)
    where
      by_info :
          (s1 : Site)
          → IsIdle s1
          → (o : Option Node) → IsIdle (elim o [ none ↦ s1 | some n ↦ append_cards n s1 ])
      by_info s1 h1 none = h1
      by_info s1 h1 (some n) = append-IsIdle n s1 h1

  alternative-IsIdle :
      (s : Site) → IsIdle s → Ends IsIdle HasContainer (load_alternative to_lower query r s)
  unfolding load_alternative
  alternative-IsIdle s h =
      Ends-try_write _ _ s (λ section. by_place section s.has_place) (IsIdle-HasContainer s h)
    where
      by_place : (n : Node) (b : Bool) → IsIdle (if b then record s { alternative = some n } else s)
      by_place n true = h
      by_place n false = h

  load_eid_cards-IsIdle :
      (s : Site) → HasContainer s → Ends IsIdle HasContainer (load_eid_cards to_lower query r s)
  unfolding load_eid_cards
  load_eid_cards-IsIdle s h = rw h (
      Ends-and_then (heading-HasContainer r s h) λ s1 h1.
        Ends-if (not (check_id r.digital_id) && not (check_id r.alternative_id))
          (at_done _ (
            error-IsIdle (eid_error_message r) (clear_cards s1)
              (IsIdle-HasContainer (clear_cards s1) (clear-IsIdle s1 h1))))
          (Ends-and_then
            (Ends-if (check_id r.digital_id) (digital-IsIdle _ (clear-IsIdle s1 h1))
              (at_done _ (clear-IsIdle s1 h1)))
            λ s3 h3.
              Ends-and_then
                (Ends-if (check_id r.alternative_id) (alternative-IsIdle s3 h3) (at_done s3 h3))
                λ s4 h4. at_done _ (finish-IsIdle to_lower query r s4 h4)))

module _ (to_lower : String → String) (query : String) (t : String → String) where
  pub load_bundle-IsIdle :
      (r : Bundle) (s : Site)
      → HasContainer s
      → Ends IsIdle HasContainer (load_bundle to_lower query r t s)
  unfolding load_bundle load_document set_eid_cards_loading
  load_bundle-IsIdle r s h = load_eid_cards-IsIdle to_lower query r _ (
      is_there-update_all container _ (set_eid_cards_loading (eid_loading_message r) s.page)
      ∙ is_there-update container container _ s.page
      ∙ h)

  -- Once the first load is over, a container that the page has is not busy: with a bundle or
  -- without, whatever its groups are, and also when the load ends with an exception.
  pub first_load-IsIdle :
      (bundle : Option Bundle) (s : Site)
      → is_there (s.page container) ≡ true
      → IsIdle (first_load to_lower query t bundle s)
  unfolding first_load load_i18next
  first_load-IsIdle none s h = error-IsIdle error_fallback s h
  first_load-IsIdle (some r) s h =
      by_end (load_bundle to_lower query r t s) (load_bundle-IsIdle r s h)
    where
      by_end :
          (m : Ended Site)
          → Ends IsIdle HasContainer m
          → IsIdle (elim m [
            | done s1 ↦ s1
            | threw e s1 ↦ on_page (set_eid_cards_error error_fallback) s1
          ])
      by_end (done _) (at_done s1 i) = i
      by_end (threw _ _) (at_threw e s1 c) = error-IsIdle error_fallback s1 c

-- Without a group, the load ends with the container showing the message of the bundle in a
-- paragraph of role `alert` and nothing else, with no section of alternative methods, and the next load
-- still counts as the first one.
pub load_eid_cards-nothing :
    (to_lower : String → String) (query : String) (r : Bundle) (s : Site) (e : El)
    → s.page container ≡ some e
    → check_id r.digital_id ≡ false
    → check_id r.alternative_id ≡ false
    → let m = load_eid_cards to_lower query r s in
      (m ≡ done (state_of m))
      × (ap_content ((state_of m).page container) ≡ some (alert (eid_error_message r)))
      × ((state_of m).alternative ≡ none)
      × ((state_of m).loaded_once ≡ s.loaded_once)
unfolding load_eid_cards update_page_heading and_then clear_cards set_eid_cards_error show_message
    update
load_eid_cards-nothing to_lower query r s e at digital other = ground arith
