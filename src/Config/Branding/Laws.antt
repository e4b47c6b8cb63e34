-- ===== src/Config/Branding/Laws.antt =====
-- `validateConfig` accepts a configuration exactly when each named field is there as a string.
use satosa_saml2spid.Base.{
  ◌↔◌, subst, sym, ◌<>◌, String, ◌≡◌, refl, Option, none, some, ok, ◌>>=◌, Ensures, Ensures-bind,
  Ensures-ok, returned, arith,
}
use satosa_saml2spid.Json.{Json, str, Fields, lookup}
use satosa_saml2spid.Config.Paths.{children}
use satosa_saml2spid.Config.Branding.{
  Localized, Logo, FooterLinks, FooterText, IdentityProviders, ErrorPage, Assets, Branding,
  assert_string, assert_object, assert_localized, check_logo, check_footer_links, check_footer_text,
  check_providers, check_error_page, check_assets, validate_config,
}

abbrev below : Fields → String → Fields
below fs k = children (lookup k fs)

abbrev Text : Fields → String → String → Type 0
Text fs k s = lookup k fs ≡ some (str s)

pub record IsLocalized (fs : Fields) (l : Localized) : Type 0 where
  pub it_text : Text fs "it" l.it
  pub en_text : Text fs "en" l.en

assert_string-eq-ok :
    (o : Option Json) (m : String) {s : String} → assert_string o m ≡ ok s → o ≡ some (str s)
unfolding assert_string
assert_string-eq-ok o m h = ground arith

assert_object-eq-ok :
    (o : Option Json) (m : String) {fs : Fields} → assert_object o m ≡ ok fs → children o ≡ fs
unfolding assert_object children
assert_object-eq-ok o m h = ground arith

assert_localized-eq-ok :
    (o : Option Json) (m : String) {l : Localized}
    → assert_localized o m ≡ ok l
    → IsLocalized (children o) l
unfolding assert_localized assert_object assert_string children
assert_localized-eq-ok o m h = ground arith

pub record IsLogo (fs : Fields) (l : Logo) : Type 0 where
  pub image_text : Text fs "image" l.image
  pub alt_text : IsLocalized (below fs "alt") l.alt

pub record IsFooterLinks (fs : Fields) (l : FooterLinks) : Type 0 where
  pub legal_text : Text fs "legalUrl" l.legal_url
  pub privacy_text : Text fs "privacyUrl" l.privacy_url
  pub access_text : Text fs "accessibilityUrl" l.accessibility_url

pub record IsFooterText (fs : Fields) (t : FooterText) : Type 0 where
  pub legal_text : IsLocalized (below fs "legal") t.legal
  pub privacy_text : IsLocalized (below fs "privacy") t.privacy
  pub access_text : IsLocalized (below fs "accessibility") t.accessibility

pub record IsProviders (fs : Fields) (p : IdentityProviders) : Type 0 where
  pub find_text : Text fs "findDigitalIdUrl" p.find_digital_id_url
  pub saml2_text : Text fs "cieSaml2LoginUrl" p.cie_saml2_login_url
  pub oidc_text : Text fs "cieOidcLoginUrl" p.cie_oidc_login_url
  pub eidas_text : Text fs "eidasLoginUrl" p.eidas_login_url
  pub idem_text : Text fs "idemLoginUrl" p.idem_login_url

pub record IsErrorPage (fs : Fields) (p : ErrorPage) : Type 0 where
  pub login_text : Text fs "loginUrl" p.login_url
  pub assistance_text : Text fs "assistanceUrl" p.assistance_url
  pub privacy_text : Text fs "privacyUrl" p.privacy_url

pub record IsAssets (fs : Fields) (a : Assets) : Type 0 where
  pub version_text : Text fs "cacheBustVersion" a.cache_bust_version
  pub fonts_text : Text fs "fontsPublicPath" a.fonts_public_path

-- Every field of the configuration stands where the sources read it.
pub record Describes (fs : Fields) (b : Branding) : Type 0 where
  pub base : Text fs "staticBasePath" b.static_base_path
  pub organization : IsLocalized (below fs "organizationName") b.organization_name
  pub logo : IsLogo (below fs "logo") b.logo
  pub wallet_logo : Text fs "walletBrandLogo" b.wallet_brand_logo
  pub links : IsFooterLinks (below fs "footerLinks") b.footer_links
  pub text : IsFooterText (below fs "footerText") b.footer_text
  pub providers : IsProviders (below fs "identityProviders") b.identity_providers
  pub page : IsErrorPage (below fs "errorPage") b.error_page
  pub assets : IsAssets (below fs "assets") b.assets

check_logo-eq-ok : (fs : Fields) {l : Logo} → check_logo fs ≡ ok l → IsLogo fs l
unfolding check_logo assert_localized assert_object assert_string children
check_logo-eq-ok fs h = ground arith

check_footer_links-eq-ok :
    (fs : Fields) {l : FooterLinks} → check_footer_links fs ≡ ok l → IsFooterLinks fs l
unfolding check_footer_links assert_string
check_footer_links-eq-ok fs h = ground arith

check_footer_text-eq-ok :
    (fs : Fields) {l : FooterText} → check_footer_text fs ≡ ok l → IsFooterText fs l
unfolding check_footer_text assert_localized assert_object assert_string children
check_footer_text-eq-ok fs h = ground arith

check_providers-eq-ok :
    (fs : Fields) {l : IdentityProviders} → check_providers fs ≡ ok l → IsProviders fs l
unfolding check_providers assert_string
check_providers-eq-ok fs h = ground arith

check_error_page-eq-ok :
    (fs : Fields) {l : ErrorPage} → check_error_page fs ≡ ok l → IsErrorPage fs l
unfolding check_error_page assert_string
check_error_page-eq-ok fs h = ground arith

check_assets-eq-ok : (fs : Fields) {l : Assets} → check_assets fs ≡ ok l → IsAssets fs l
unfolding check_assets assert_string
check_assets-eq-ok fs h = ground arith

Describes-eq : {fs gs : Fields} {b : Branding} → fs ≡ gs → Describes gs b → Describes fs b
Describes-eq e d = rw e d

validate_config-Ensures :
    (config : Json) → Ensures (Describes (children (some config))) (validate_config config)
unfolding validate_config
validate_config-Ensures config = Ensures-bind _ _ λ fs h0. Ensures-bind _ _ λ base h1.
    Ensures-bind _ _ λ organization h2. Ensures-bind _ _ λ logo_fs h3. Ensures-bind _ _ λ logo h4.
      Ensures-bind _ _ λ wallet h5. Ensures-bind _ _ λ links_fs h6. Ensures-bind _ _ λ links h7.
        Ensures-bind _ _ λ text_fs h8. Ensures-bind _ _ λ text h9. Ensures-bind _ _ λ idp_fs h10.
          Ensures-bind _ _ λ idp h11. Ensures-bind _ _ λ page_fs h12. Ensures-bind _ _ λ page h13.
            Ensures-bind _ _ λ assets_fs h14. Ensures-bind _ _ λ assets h15. returned _ (
              Describes-eq (assert_object-eq-ok _ _ h0) (record {
                base = assert_string-eq-ok _ _ h1;
                organization = assert_localized-eq-ok _ _ h2;
                logo =
                    subst (λ g. IsLogo g logo) (sym (assert_object-eq-ok _ _ h3))
                      (check_logo-eq-ok _ h4);
                wallet_logo = assert_string-eq-ok _ _ h5;
                links =
                    subst (λ g. IsFooterLinks g links) (sym (assert_object-eq-ok _ _ h6))
                      (check_footer_links-eq-ok _ h7);
                text =
                    subst (λ g. IsFooterText g text) (sym (assert_object-eq-ok _ _ h8))
                      (check_footer_text-eq-ok _ h9);
                providers =
                    subst (λ g. IsProviders g idp) (sym (assert_object-eq-ok _ _ h10))
                      (check_providers-eq-ok _ h11);
                page =
                    subst (λ g. IsErrorPage g page) (sym (assert_object-eq-ok _ _ h12))
                      (check_error_page-eq-ok _ h13);
                assets =
                    subst (λ g. IsAssets g assets) (sym (assert_object-eq-ok _ _ h14))
                      (check_assets-eq-ok _ h15);
              }))

-- A value with a property is an object, which the check lets through.
assert_object_lem :
    (o : Option Json) (m k : String) {v : Json}
    → lookup k (children o) ≡ some v
    → assert_object o m ≡ ok (children o)
unfolding assert_object children lookup
assert_object_lem o m k h = ground arith

assert_string_lem : (o : Option Json) (m s : String) → o ≡ some (str s) → assert_string o m ≡ ok s
unfolding assert_string
assert_string_lem o m s h = ground arith

-- A value with a property is there.
present :
    (o : Option Json) (k : String) {v : Json}
    → lookup k (children o) ≡ some v
    → (w : Json) × (o ≡ some w)
unfolding children lookup
present none k h = cc
present (some w) k h = (w, refl)

assert_localized_lem :
    (o : Option Json) (m : String) (l : Localized)
    → IsLocalized (children o) l
    → assert_localized o m ≡ ok l
unfolding assert_localized assert_string
assert_localized_lem o m l h =
    ground (arith, assert_object_lem o (m <> " must be an object with it/en") "it" h.it_text)

check_logo_lem : (fs : Fields) (r : Logo) → IsLogo fs r → check_logo fs ≡ ok r
unfolding check_logo assert_string
check_logo_lem fs r h =
    ground (arith, assert_localized_lem (lookup "alt" fs) "logo.alt" r.alt h.alt_text)

check_footer_links_lem :
    (fs : Fields) (r : FooterLinks) → IsFooterLinks fs r → check_footer_links fs ≡ ok r
unfolding check_footer_links assert_string
check_footer_links_lem fs r h = ground arith

check_footer_text_lem :
    (fs : Fields) (r : FooterText) → IsFooterText fs r → check_footer_text fs ≡ ok r
unfolding check_footer_text
check_footer_text_lem fs r h = ground (
  arith,
  assert_localized_lem (lookup "legal" fs) "footerText.legal" r.legal h.legal_text,
  assert_localized_lem (lookup "privacy" fs) "footerText.privacy" r.privacy h.privacy_text,
  assert_localized_lem (lookup "accessibility" fs) "footerText.accessibility" r.accessibility
      h.access_text,
)

check_providers_lem :
    (fs : Fields) (r : IdentityProviders) → IsProviders fs r → check_providers fs ≡ ok r
unfolding check_providers assert_string
check_providers_lem fs r h = ground arith

check_error_page_lem : (fs : Fields) (r : ErrorPage) → IsErrorPage fs r → check_error_page fs ≡ ok r
unfolding check_error_page assert_string
check_error_page_lem fs r h = ground arith

check_assets_lem : (fs : Fields) (r : Assets) → IsAssets fs r → check_assets fs ≡ ok r
unfolding check_assets assert_string
check_assets_lem fs r h = ground arith

validate_config_lem :
    (config : Json) (b : Branding)
    → Describes (children (some config)) b
    → validate_config config ≡ ok b
unfolding validate_config ◌>>=◌
validate_config_lem config b h = rw (
  assert_object_lem (some config) "config must be an object" "staticBasePath" h.base,
  assert_string_lem _ "staticBasePath must be a string" _ h.base,
  assert_localized_lem _ "organizationName" _ h.organization,
  assert_object_lem _ "logo required" "image" h.logo.image_text,
  check_logo_lem _ _ h.logo,
  assert_string_lem _ "walletBrandLogo must be a string" _ h.wallet_logo,
  assert_object_lem _ "footerLinks required" "legalUrl" h.links.legal_text,
  check_footer_links_lem _ _ h.links,
  assert_object_lem _ "footerText required" "legal" (present _ "it" h.text.legal_text.it_text).1,
  check_footer_text_lem _ _ h.text,
  assert_object_lem _ "identityProviders required" "findDigitalIdUrl" h.providers.find_text,
  check_providers_lem _ _ h.providers,
  assert_object_lem _ "errorPage required" "loginUrl" h.page.login_text,
  check_error_page_lem _ _ h.page,
  assert_object_lem _ "assets required" "cacheBustVersion" h.assets.version_text,
  check_assets_lem _ _ h.assets,
)

-- Validation returns `b` exactly when the file has every field of `b` as a string, in its place.
pub validate_config_iff :
    (config : Json) (b : Branding)
    → (validate_config config ≡ ok b) ↔ Describes (children (some config)) b
validate_config_iff config b =
    (Ensures-ok _ b (validate_config-Ensures config), validate_config_lem config b)
