-- ===== src/Eid/Document/Laws.antt =====
-- `loadDocument` writes each element once, and a second run with the same texts changes nothing.
use satosa_saml2spid.Base.{String, ◌<>◌, ◌≡◌, refl, ap, ◌∙◌, Bool, true, arith}
use satosa_saml2spid.Dom.Page.{El, set_entry, set_attr, set_text, Page, on_el, is_there, update_all}
use satosa_saml2spid.Dom.Page.Laws.{
  Settle, apart, write_at, update_all-apart, update_all_twice, set_attr_twice, set_attr_same,
  set_text_twice, find_key-set_entry, find_key-set_entry_self,
}
use satosa_saml2spid.Eid.Bundle.{Bundle}
use satosa_saml2spid.Eid.Document.{
  set_footer_link, set_logo, set_text_if_new, set_description, document_writes, load_document,
}

set_footer_link_twice :
    (hint label : String) (e : El)
    → set_footer_link hint label (set_footer_link hint label e) ≡ set_footer_link hint label e
unfolding set_footer_link
set_footer_link_twice hint label e =
    set_attr_twice "aria-label" (label <> " (" <> hint <> ")") (set_text label e)

label_drawing_twice :
    (e : El)
    → let f = λ (x : El). set_attr "aria-labelledby" "eid-title" (set_attr "role" "img" x) in
      f (f e) ≡ f e
unfolding set_attr
label_drawing_twice e =
    let drawn = set_attr "aria-labelledby" "eid-title" (set_attr "role" "img" e) in
    ap (set_attr "aria-labelledby" "eid-title") (
      set_attr_same "role" "img" drawn (
        find_key-set_entry "role" "aria-labelledby" "eid-title" (set_entry "role" "img" e.attrs)
          refl
        ∙ find_key-set_entry_self "role" "img" e.attrs))
    ∙ set_attr_twice "aria-labelledby" "eid-title" (set_attr "role" "img" e)

set_logo_twice :
    (has_title : Bool) (s : String) (e : El)
    → set_logo has_title s (set_logo has_title s e) ≡ set_logo has_title s e
unfolding set_logo
set_logo_twice has_title s e = ground (arith, set_attr_twice "alt" s e, label_drawing_twice e)

set_text_if_new_twice :
    (s : String) (e : El) → set_text_if_new s (set_text_if_new s e) ≡ set_text_if_new s e
unfolding set_text_if_new
set_text_if_new_twice s e = ground arith

set_description_twice :
    (s : String) (e : El) → set_description s (set_description s e) ≡ set_description s e
unfolding set_description
set_description_twice s e =
    ground (arith, set_attr_twice "content" s e, find_key-set_entry_self "content" s e.attrs)

document_writes-apart :
    (t : String → String) (r : Bundle) (b : Bool) → apart (document_writes t r b) ≡ true
unfolding document_writes apart
document_writes-apart t r b = refl

document_writes-Settle :
    (t : String → String) (r : Bundle) (b : Bool) → Settle (document_writes t r b)
unfolding document_writes
document_writes-Settle t r b = (
  set_text_twice _,
  (
    set_attr_twice _ _,
    (
      set_text_twice _,
      (
        set_text_twice _,
        (
          set_text_twice _,
          (
            set_text_twice _,
            (
              set_logo_twice b _,
              (
                set_footer_link_twice _ _,
                (
                  set_footer_link_twice _ _,
                  (
                    set_footer_link_twice _ _,
                    (
                      set_attr_twice _ _,
                      (set_text_twice _, (set_text_if_new_twice _, (set_description_twice _, tt))),
                    ),
                  ),
                ),
              ),
            ),
          ),
        ),
      ),
    ),
  ),
)

-- Every element that `loadDocument` names is written by its own write alone, and no other element of
-- the page changes.
pub load_document_lem :
    (t : String → String) (r : Bundle) (page : Page) (selector : String)
    → load_document t r page selector
      ≡ on_el
          (write_at selector (document_writes t r (is_there (page "#eid-title"))))
          (page selector)
unfolding load_document
load_document_lem t r page selector =
    let has_title = is_there (page "#eid-title") in
    update_all-apart selector (document_writes t r has_title) page
      (document_writes-apart t r has_title)

-- The title is there after the writes exactly if it was there before.
has_title_kept :
    (t : String → String) (r : Bundle) (page : Page)
    → is_there (load_document t r page "#eid-title") ≡ is_there (page "#eid-title")
has_title_kept t r page = ap is_there (load_document_lem t r page "#eid-title") ∙ ground arith

twice_at :
    (t : String → String) (r : Bundle) (page : Page) (b c : Bool)
    → c ≡ b
    → update_all (document_writes t r c) (update_all (document_writes t r b) page)
      ≡ update_all (document_writes t r b) page
twice_at t r page b c e = rw e (
    update_all_twice (document_writes t r b) page (document_writes-apart t r b)
      (document_writes-Settle t r b))

-- Loading the same texts again changes nothing.
pub load_document_twice :
    (t : String → String) (r : Bundle) (page : Page)
    → load_document t r (load_document t r page) ≡ load_document t r page
unfolding load_document
load_document_twice t r page = twice_at t r page _ _ (has_title_kept t r page)
