-- ===== src/Lang/Tests.antt =====
-- The language menu at small inputs.
use satosa_saml2spid.Base.{String, ◌≡◌, true, false, none, [], ◌∷◌, any, All, ◌==◌}
use satosa_saml2spid.Lang.Popper.{
  Modifier, popper_modifiers, others, HasDistance, popper_modifiers_lem,
}
use satosa_saml2spid.Lang.Menu.{LangOption, Root, Header}

abbrev flip_modifier : Modifier
flip_modifier = record { name = "flip"; offset = []; other_options = [] }

popper_modifiers_lem_example :
    (any (λ m. m.name == "offset") (popper_modifiers (flip_modifier ∷ [])) ≡ true)
    × All HasDistance (popper_modifiers (flip_modifier ∷ []))
    × (others (popper_modifiers (flip_modifier ∷ [])) ≡ others (flip_modifier ∷ []))
popper_modifiers_lem_example = popper_modifiers_lem (flip_modifier ∷ [])

abbrev lang_option : String → LangOption
lang_option s = record {
  data_lang = s;
  is_active_class = false;
  role = "";
  aria_checked = false;
  aria_current = false;
}

abbrev pub menu_root : Root
menu_root = record {
  label = "ITA";
  active_hint = "";
  trigger_label = "";
  menu_role = "";
  options = lang_option "it" ∷ lang_option "en" ∷ [];
  bound = false;
  listeners = 0;
}

abbrev pub header : Header
header = record {
  document_lang = "it";
  roots = menu_root ∷ [];
  on_change = 0;
  bound_i18next = none;
}
