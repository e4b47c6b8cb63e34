-- ===== src/Lang/Menu.antt =====
-- The options of the menu and their marks. `i18next.t` is a parameter, which is absent until
-- `initHeaderLangDropdown` has bound the translator.
pub mod Laws
use satosa_saml2spid.Base.{
  ℕ, suc, String, ◌<>◌, Bool, true, Option, none, some, List, [], ◌∷◌, map, ◌==◌, eqb,
  if◌then◌else◌, is_truthy,
}

-- `(lng || 'it').split('-')[0]`.
unfoldable pub first_part : String → String
first_part String.[] = ""
first_part (String.◌∷◌ c s) =
    let rest = first_part s in if String.◌∷◌ c "" == "-" then "" else String.◌∷◌ c rest

unfoldable pub normalize_lang : Option String → String
unfolding first_part
normalize_lang none = "it"
normalize_lang (some s) =
    if is_truthy s then (if first_part s == "en" then "en" else "it") else "it"

-- The translator, by key and with the name of the language.
abbrev pub Translator : Type 0
Translator = Option (String → String → String)

abbrev pub lang_display : String → String
lang_display code = if code == "en" then "English" else "Italiano"

unfoldable pub lang_active_hint : Translator → Option String → String
unfolding normalize_lang
lang_active_hint (some t) lng = t "header.lang_active_hint" ""
lang_active_hint none lng =
    if normalize_lang lng == "en" then "active language:" else "lingua attiva:"

unfoldable pub trigger_aria_label : Translator → String → String
trigger_aria_label (some t) code = t "header.lang_trigger" (lang_display code)
trigger_aria_label none code =
    if code == "en"
    then "Language selection, " <> lang_display code <> " selected"
    else "Selezione lingua, " <> lang_display code <> " selezionata"

-- An option of the menu: `data-lang`, and what marks it as the active one.
pub record LangOption : Type 0 where
  pub data_lang : String
  pub is_active_class : Bool
  pub role : String
  pub aria_checked : Bool
  pub aria_current : Bool

-- The root of a menu. `bound` is `langDropdownBound`, `listeners` counts the click listeners of each
-- option.
pub record Root : Type 0 where
  pub label : String
  pub active_hint : String
  pub trigger_label : String
  pub menu_role : String
  pub options : List LangOption
  pub bound : Bool
  pub listeners : ℕ

unfoldable pub sync_option : String → LangOption → LangOption
sync_option code o =
    let is_active = o.data_lang == code in
    record o {
      is_active_class = is_active;
      role = "menuitemradio";
      aria_checked = is_active;
      aria_current = is_active;
    }

-- `syncRoot`.
unfoldable pub sync_root : Translator → Option String → Root → Root
unfolding sync_option normalize_lang lang_active_hint trigger_aria_label
sync_root t lng root =
    let code = normalize_lang lng in
    record root {
      label = if code == "en" then "EN" else "ITA";
      active_hint = lang_active_hint t (some code);
      trigger_label = trigger_aria_label t code;
      menu_role = if is_truthy root.menu_role then root.menu_role else "menu";
      options = map (sync_option code) root.options;
    }

-- The page: the language of the document and the menus; `on_change` counts the listeners of
-- `languageChanged`, and `bound_i18next` is the translator.
pub record Header : Type 0 where
  pub document_lang : String
  pub roots : List Root
  pub on_change : ℕ
  pub bound_i18next : Translator

-- `setDocumentLanguage`.
unfoldable pub set_document_language : Option String → Header → Header
unfolding normalize_lang
set_document_language lng h = record h { document_lang = normalize_lang lng }

-- `syncAllLangDropdowns`.
unfoldable pub sync_all_lang_dropdowns : Option String → Header → Header
unfolding set_document_language sync_root
sync_all_lang_dropdowns lng h =
    let marked = set_document_language lng h in
    record marked { roots = map (sync_root h.bound_i18next lng) h.roots }

-- The menus that are not bound get their listeners.
unfoldable pub bind_root : Root → Root
bind_root root =
    if root.bound then root else record root { bound = true; listeners = suc root.listeners }

-- `initHeaderLangDropdown`, with a translator and its language.
unfoldable pub init_header_lang_dropdown :
    (String → String → String) → Option String → Header → Header
unfolding sync_all_lang_dropdowns bind_root
init_header_lang_dropdown t lng h =
    let known = record h {
      bound_i18next = some t;
      on_change = if eqb h.on_change 0 then 1 else h.on_change;
    } in
    let synced = sync_all_lang_dropdowns lng known in
    record synced { roots = map bind_root synced.roots }
