-- ===== src/ErrorPage/Tests.antt =====
-- The error page at a small input.
use satosa_saml2spid.Base.{String, ◌≡◌, refl, true, none, some, List, [], ◌∷◌, map, trim}
use satosa_saml2spid.ErrorPage.{Item, apply_to_items}

abbrev pub same : String → String
same s = s

abbrev pub footer_link : List Item
footer_link =
    record {
      i18n = some "footer.privacy";
      aria_key = none;
      is_new_window = true;
      inner = none;
      text = "";
      aria_label = none;
    }
    ∷ []

translated :
    map (λ e. e.aria_label) (apply_to_items same footer_link)
    ≡ some "footer.privacy (footer.new_window_hint)" ∷ []
unfolding apply_to_items trim
translated = refl
