-- ===== src/Eid/Bundle.antt =====
-- The locale bundle of the page, how the scripts get it from i18next, and the entries of its two groups.
use satosa_saml2spid.Base.{
  String, Bool, true, false, Option, none, some, Result, ok, err, List, [], ◌∷◌, find_key,
}

-- One authentication method. A field that is absent is `none`; `null` reads alike.
pub record Eid : Type 0 where
  pub name : Option String
  pub logo_text : Option String
  pub logo : Option String
  pub login_url : Option String
  pub learn_more_descr : Option String
  pub learn_more_link : Option String
  pub learn_more_label : Option String
  pub learn_more_toggle_label : Option String

-- `digital_id` and `alternative_id`: absent, a value that is no object, or an object.
pub data Group : Type 0 where
  missing : Group
  scalar : Group
  entries : List (String × Eid) → Group

-- `resource`: the sections of texts, and the two groups.
pub record Bundle : Type 0 where
  pub sections : List (String × List (String × String))
  pub digital_id : Group
  pub alternative_id : Group

-- What i18next answers for a language: `getResourceBundle`, and the `translation` of the two ways to its
-- store, where they have one.
pub record Store : Type 0 where
  pub resource_bundle : String → Option Bundle
  pub data_by_language : String → Option Bundle
  pub store_data : String → Option Bundle

-- The bundle of a language, by the first way that has one.
unfoldable pub find_bundle : Store → String → Option Bundle
find_bundle store lang = elim (store.resource_bundle lang) [
  | some r ↦ some r
  | none ↦ elim (store.data_by_language lang) [ some r ↦ some r | none ↦ store.store_data lang ]
]

-- `checkId`.
unfoldable pub check_id : Group → Bool
check_id missing = false
check_id scalar = false
check_id (entries []) = false
check_id (entries (_ ∷ _)) = true

-- `resource?.section?.key`.
unfoldable pub read : Bundle → String → String → Option String
read r section key = elim (find_key section r.sections) [
  | none ↦ none
  | some texts ↦ find_key key texts
]

-- `resource.section.key`, which throws where the section is absent.
unfoldable pub read_in : Bundle → String → String → Result (Option String)
read_in r section key = elim (find_key section r.sections) [
  | none ↦ err "TypeError"
  | some texts ↦ ok (find_key key texts)
]

-- `value ?? fallback`.
abbrev pub or_else : Option String → String → String
or_else none fallback = fallback
or_else (some s) fallback = s

-- `textContent = value`, where an absent value gives the empty text.
abbrev pub text_of : Option String → String
text_of none = ""
text_of (some s) = s

-- A value in a template, or as a reflected attribute.
abbrev pub dom_string : Option String → String
dom_string none = "undefined"
dom_string (some s) = s
