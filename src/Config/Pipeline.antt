-- ===== src/Config/Pipeline.antt =====
-- `buildHtmlPipeline` and `applyToSources`: what the build makes of the text of each file.
pub mod Laws
use satosa_saml2spid.Base.{
  String, ◌<>◌, Option, none, some, List, [], ◌∷◌, ◌++◌, map, find_key, Result, ok, err, ◌>>=◌,
}
use satosa_saml2spid.Json.{Json}
use satosa_saml2spid.Config.Branding.{Branding}
use satosa_saml2spid.Config.Edits.{Edit, build_json_edits, apply_edits}
use satosa_saml2spid.Config.Html.{
  set_html_attr_by_id, set_html_attr_by_class, set_html_text_by_id, rewrite_static_base_path,
  set_cache_bust_version, set_public_fonts_path,
}
use satosa_saml2spid.Config.Html.Logo.{set_header_logo, set_error_header_logo}

abbrev pub Transform : Type 0
Transform = String → String

module _ (config : Branding) where
  open config use {organization_name as org, logo, footer_links as links, error_page, assets}

  unfoldable pub apply_footer_links : Transform
  unfolding set_html_attr_by_id
  apply_footer_links html =
      let legal = set_html_attr_by_id html "footer-legal" "href" links.legal_url in
      let privacy = set_html_attr_by_id legal "footer-privacy" "href" links.privacy_url in
      set_html_attr_by_id privacy "footer-accessibility" "href" links.accessibility_url

  unfoldable pub apply_header_logo : Transform
  unfolding set_header_logo
  apply_header_logo html = set_header_logo html logo.image logo.alt.it

  unfoldable pub apply_header_logo_text : Transform
  unfolding set_html_text_by_id
  apply_header_logo_text html =
      let placeholder = set_html_text_by_id html "header-logo-text" logo.alt.it in
      set_html_text_by_id placeholder "eid-title" logo.alt.it

  abbrev rewrite_base : Transform
  rewrite_base html = rewrite_static_base_path html config.static_base_path

  -- The transforms, keyed by file.
  unfoldable pub build_html_pipeline : List (String × List Transform)
  unfolding apply_footer_links apply_header_logo apply_header_logo_text rewrite_static_base_path
      set_cache_bust_version set_html_attr_by_class set_html_attr_by_id set_html_text_by_id
      set_error_header_logo set_public_fonts_path
  build_html_pipeline =
      (
        "disco.html",
        rewrite_base ∷ apply_header_logo ∷ apply_header_logo_text ∷ apply_footer_links ∷ [],
      )
      ∷ (
        "it-wallet.html",
        rewrite_base
            ∷ (λ html. set_cache_bust_version html assets.cache_bust_version)
            ∷ (λ html.
                set_html_attr_by_class html "it-wallet-navbar-logo" "src" config.wallet_brand_logo)
            ∷ apply_header_logo
            ∷ apply_header_logo_text
            ∷ apply_footer_links
            ∷ [],
      )
      ∷ (
        "error_page.html",
        rewrite_base
            ∷ (λ html. set_error_header_logo html logo.image)
            ∷ (λ html. set_html_text_by_id html "error-header-region-name" org.it)
            ∷ (λ html. set_html_text_by_id html "error-header-logo-title" logo.alt.it)
            ∷ (λ html. set_html_attr_by_class html "error-page-cta" "href" error_page.login_url)
            ∷ (λ html.
                set_html_attr_by_class html "error-page-assistance" "href"
                  error_page.assistance_url)
            ∷ (λ html.
                set_html_attr_by_id html "error-footer-privacy" "href" error_page.privacy_url)
            ∷ (λ html. set_public_fonts_path html assets.fonts_public_path)
            ∷ [],
      )
      ∷ []

  unfoldable pub target_files : List String
  unfolding build_json_edits build_html_pipeline
  target_files = map (λ e. e.0) (build_json_edits config) ++ map (λ e. e.0) build_html_pipeline

-- `for (const transform of …) html = transform(html)`.
unfoldable pub transformed : List Transform → Transform
transformed [] html = html
transformed (t ∷ ts) html = transformed ts (t html)

-- `JSON.parse` and `JSON.stringify(_, null, 2)`, and the message of the TypeError for a write below a
-- file that holds no object.
pub record JsonText : Type 0 where
  pub parse : String → Result Json
  pub stringify : Json → String
  pub type_error : String

-- The loop over the sources, which an exception ends.
unfoldable pub each_source :
    (String → String → Result String) → List (String × String) → Result (List (String × String))
unfolding ◌>>=◌
each_source apply [] = ok []
each_source apply ((rel, content) ∷ sources) = do
  first ← apply rel content
  others ← each_source apply sources
  ok ((rel, first) ∷ others)

-- The text of a locale file after its edits, or a TypeError.
unfoldable pub text_of : JsonText → Option Json → Result String
text_of json none = err json.type_error
text_of json (some edited) = ok (json.stringify edited <> "\n")

module _ (json : JsonText) (config : Branding) where
  -- A locale file with its edits, in text.
  unfoldable pub edit_text : List Edit → String → Result String
  unfolding ◌>>=◌ apply_edits text_of
  edit_text edits content = do root ← json.parse content; text_of json (apply_edits edits root)

  -- What the loop does with one file.
  unfoldable pub apply_to_source : String → String → Result String
  unfolding edit_text build_json_edits build_html_pipeline find_key transformed
  apply_to_source rel content = elim (find_key rel (build_json_edits config)) [
    | some edits ↦ edit_text edits content
    | none ↦ elim (find_key rel (build_html_pipeline config)) [
      | some transforms ↦ ok (transformed transforms content)
      | none ↦ ok content
    ]
  ]

  unfoldable pub apply_to_sources : List (String × String) → Result (List (String × String))
  unfolding each_source apply_to_source
  apply_to_sources sources = each_source apply_to_source sources
