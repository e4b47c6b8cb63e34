-- ===== src/Config/Tests.antt =====
-- The configuration at small inputs.
use satosa_saml2spid.Base.{is_space, ◌<>◌, false, ◌==◌, if◌then◌else◌, ◌>>=◌, All, done, state_of}
use satosa_saml2spid.Config.Regex.{match_piece, size, test}
use satosa_saml2spid.Config.Regex.Laws.{all_in}
use satosa_saml2spid.Config.Regex.Replace.Laws.{has_dollar}
use satosa_saml2spid.Config.Html.{
  escape_reg_exp, read_literal, escape_html_attr, set_attr_in_tag, id_tag_re, set_html_attr_by_id,
  id_text_re, set_html_text_by_id,
}
use satosa_saml2spid.Config.Html.Escape.{read_literal-escape_reg_exp}
use satosa_saml2spid.Config.Html.Attr.{is_inert, escape_html_attr-inert}
use satosa_saml2spid.Config.Html.Laws.{
  HasAttr, Sets, set_attr_in_tag-Sets, Rewrites, set_html_attr_by_id-Rewrites,
}
use satosa_saml2spid.Config.Html.Text.{SetsText, set_html_text_by_id-SetsText}
use satosa_saml2spid.Config.Pipeline.{JsonText, apply_to_source, target_files}
use satosa_saml2spid.Config.Pipeline.Laws.{locale_file_settles}
use satosa_saml2spid.Config.Build.{Host, Disk, Run, load_config, run_build, main}
use satosa_saml2spid.Config.Build.Files.{no_twice}
use satosa_saml2spid.Config.Build.Check.{IsClean, check_iff}
use satosa_saml2spid.Config.Build.Refine.{after_roots, run_build-refines}
use satosa_saml2spid.Config.Build.Laws.{IsStable, main-dry, build-check}
use satosa_saml2spid.Base.{String, ◌≡◌, refl, ◌↔◌, true, none, some, ok, [], ◌∷◌, all, find_key}
use satosa_saml2spid.Json.{Json, null, str, obj, Fields, end, field, lookup, insert}
use satosa_saml2spid.Config.Paths.{put, diverge, split_dot, children, rebuild, set_by_path}
use satosa_saml2spid.Config.Branding.{
  Localized, Branding, assert_object, assert_string, assert_localized, check_logo,
  check_footer_links, check_footer_text, check_providers, check_error_page, check_assets,
  validate_config,
}
use satosa_saml2spid.Config.Branding.Laws.{Describes, validate_config_iff}
use satosa_saml2spid.Config.Edits.{it, error, build_json_edits, apply_edits, get_by_path, apart}
use satosa_saml2spid.Config.Edits.Laws.{Holds, get_by_path-apply_edits}

abbrev both : String → Localized
both s = record { it = s; en = s }

abbrev sample : Branding
sample = record {
  static_base_path = "/static";
  organization_name = both "Ente";
  logo = record { image = "logo.svg"; alt = both "Logo" };
  wallet_brand_logo = "wallet.svg";
  footer_links = record { legal_url = "/l"; privacy_url = "/p"; accessibility_url = "/a" };
  footer_text = record {
    legal = both "Note";
    privacy = both "Privacy";
    accessibility = both "Access";
  };
  identity_providers = record {
    find_digital_id_url = "/find";
    cie_saml2_login_url = "/cie";
    cie_oidc_login_url = "/oidc";
    eidas_login_url = "/eidas";
    idem_login_url = "/idem";
  };
  error_page = record { login_url = "/login"; assistance_url = "/help"; privacy_url = "/p" };
  assets = record { cache_bust_version = "1"; fonts_public_path = "/fonts" };
}

validate_config_iff_example :
    (validate_config (obj end) ≡ ok sample) ↔ Describes (children (some (obj end))) sample
validate_config_iff_example = validate_config_iff (obj end) sample

edits_found : find_key "locales/error-it.json" (build_json_edits sample) ≡ some (error sample it)
unfolding find_key build_json_edits
edits_found = refl

-- The error texts written into an empty file.
unfoldable edited : Json
unfolding apply_edits
edited = elim (apply_edits (error sample it) (obj end)) [ none ↦ null | some root ↦ root ]

edits_applied : apply_edits (error sample it) (obj end) ≡ some edited
unfolding edited apply_edits error set_by_path split_dot put lookup insert children rebuild
edits_applied = refl

edits_apart : all (λ e. apart e.dot_path "header.other") (error sample it) ≡ true
unfolding apart error split_dot diverge
edits_apart = refl

get_by_path-apply_edits_example :
    get_by_path edited "header.other" ≡ get_by_path (obj end) "header.other"
get_by_path-apply_edits_example =
    get_by_path-apply_edits (error sample it) (obj end) "header.other" {root' = edited} edits_apart
      edits_applied

-- A configuration file with the sample in it.
abbrev text_in : String → String → Fields → Fields
text_in k v fs = field k (str v) fs

abbrev both_in : String → String → Fields → Fields
both_in k v fs = field k (obj (text_in "it" v (text_in "en" v end))) fs

abbrev config_json : Json
config_json = obj (
    text_in "staticBasePath" "/static" (
      both_in "organizationName" "Ente" (
        field "logo" (obj (text_in "image" "logo.svg" (both_in "alt" "Logo" end))) (
          text_in "walletBrandLogo" "wallet.svg" (
            field "footerLinks"
              (obj (
                text_in "legalUrl" "/l"
                  (text_in "privacyUrl" "/p" (text_in "accessibilityUrl" "/a" end))))
              (field "footerText"
                (obj (
                  both_in "legal" "Note"
                    (both_in "privacy" "Privacy" (both_in "accessibility" "Access" end))))
                (field "identityProviders"
                  (obj (
                    text_in "findDigitalIdUrl" "/find" (
                      text_in "cieSaml2LoginUrl" "/cie" (
                        text_in "cieOidcLoginUrl" "/oidc" (
                          text_in "eidasLoginUrl" "/eidas" (text_in "idemLoginUrl" "/idem" end))))))
                  (field "errorPage"
                    (obj (
                      text_in "loginUrl" "/login"
                        (text_in "assistanceUrl" "/help" (text_in "privacyUrl" "/p" end))))
                    (field "assets"
                      (obj
                        (text_in "cacheBustVersion" "1" (text_in "fontsPublicPath" "/fonts" end)))
                      end)))))))))

-- A printer and a parser for the values of the tests.
abbrev sample_json : JsonText
sample_json = record {
  parse =
      λ s. if s == "config" then ok config_json else if s == "{}" then ok (obj end) else ok edited;
  stringify = λ v. "edited";
  type_error = "TypeError";
}

abbrev sample_host : Host
sample_host = record {
  json = sample_json;
  config_text = ok "config";
  relative = λ root rel. root <> "/" <> rel;
  write_error = λ root rel. if root == "nginx" then some "EACCES" else none;
  static_root = "static";
  nginx_static_root = "nginx";
}

-- Both roots are there, with a page that has a version to set.
abbrev page : String
page = "<script src=\"a.js?v=0\">"

abbrev sample_disk : Disk
sample_disk = record {
  has_root = λ root. true;
  file = λ root rel. if rel == "it-wallet.html" then some (ok page) else none;
}

sample_loads : load_config sample_host ≡ ok sample
unfolding load_config validate_config ◌>>=◌ lookup assert_object assert_string assert_localized
    check_logo check_footer_links check_footer_text check_providers check_error_page check_assets
sample_loads = refl

locale_file_settles_example :
    Holds (error sample it) edited
    × (apply_to_source sample_json sample "locales/error-it.json" "{}" ≡ ok "edited\n")
    × (apply_to_source sample_json sample "locales/error-it.json" "edited\n" ≡ ok "edited\n")
locale_file_settles_example =
    locale_file_settles sample_json sample "locales/error-it.json" (error sample it) "{}" (obj end)
      edited edits_found refl edits_applied refl

read_literal-escape_reg_exp_example : read_literal false (escape_reg_exp "a.b") ≡ some "a.b"
read_literal-escape_reg_exp_example = read_literal-escape_reg_exp "a.b"

escape_html_attr-inert_example : all_in is_inert (escape_html_attr "\"><b") ≡ true
escape_html_attr-inert_example = escape_html_attr-inert "\"><b"

abbrev legal_link : String
legal_link = "<a id=\"x\" href=\"#\">"

no_dollar : has_dollar "/l" ≡ false
unfolding has_dollar
no_dollar = refl

has_href : HasAttr legal_link "href" "#" "<a id=\"x\"" " " ">"
unfolding all_in is_space
has_href = record { spaced = refl; unquoted = refl; stands = refl }

set_attr_in_tag-Sets_example :
    Sets legal_link "href" "/l" (size "<a id=\"x\"") (set_attr_in_tag legal_link "href" "/l")
set_attr_in_tag-Sets_example =
    set_attr_in_tag-Sets legal_link "href" "/l" "#" "<a id=\"x\"" " " ">" no_dollar has_href

set_html_attr_by_id-Rewrites_example :
    Rewrites
      (id_tag_re "x")
      (λ tag. set_attr_in_tag tag "href" "/l")
      legal_link
      (set_html_attr_by_id legal_link "x" "href" "/l")
set_html_attr_by_id-Rewrites_example = set_html_attr_by_id-Rewrites legal_link "x" "href" "/l"

abbrev heading : String
heading = "<h2 id=\"t\">old</h2>"

has_text : test (id_text_re "t") heading ≡ true
unfolding test id_text_re match_piece
has_text = refl

set_html_text_by_id-SetsText_example :
    SetsText heading "t" "new" (set_html_text_by_id heading "t" "new")
set_html_text_by_id-SetsText_example = set_html_text_by_id-SetsText heading "t" "new" has_text

main-dry_example : (main sample_host ("--check" ∷ []) sample_disk).1 ≡ sample_disk
main-dry_example = main-dry sample_host ("--check" ∷ []) sample_disk refl

check_iff_example :
    ((main sample_host ("--check" ∷ []) sample_disk).0.exit_code ≡ 0)
    ↔ IsClean sample_host sample sample_disk
check_iff_example = check_iff sample_host sample ("--check" ∷ []) sample_disk refl sample_loads refl

-- Both roots are built; the second one cannot be written.
unfoldable ended : Run
unfolding run_build
ended = state_of (run_build sample_host false ("static" ∷ "nginx" ∷ []) sample_disk)

sample_builds : run_build sample_host false ("static" ∷ "nginx" ∷ []) sample_disk ≡ done ended
unfolding ended run_build lookup match_piece assert_object assert_string assert_localized check_logo
    check_footer_links check_footer_text check_providers check_error_page check_assets
sample_builds = refl

roots_distinct : no_twice ("static" ∷ "nginx" ∷ []) ≡ true
unfolding no_twice
roots_distinct = refl

run_build-refines_example :
    ended.disk.file "static" "it-wallet.html"
    ≡ after_roots sample_host sample ("static" ∷ "nginx" ∷ []) sample_disk "static" "it-wallet.html"
run_build-refines_example =
    run_build-refines sample_host sample ("static" ∷ "nginx" ∷ []) sample_disk ended "static"
      "it-wallet.html" sample_loads roots_distinct sample_builds

page-IsStable :
    All
      (λ rel. IsStable (apply_to_source sample_json sample) rel (sample_disk.file "static" rel))
      (target_files sample)
unfolding target_files apply_to_source match_piece
page-IsStable =
    (tt, (tt, (tt, (tt, (tt, (tt, (tt, (("<script src=\"a.js?v=1\">", refl, refl), (tt, tt)))))))))

build-check_example : (main sample_host ("--check" ∷ []) ended.disk).0.exit_code ≡ 0
build-check_example =
    build-check sample_host sample ("static" ∷ "nginx" ∷ []) ("--check" ∷ []) sample_disk ended
      sample_loads roots_distinct refl refl (λ rel. refl) page-IsStable sample_builds refl
