-- ===== src/Config/Branding.antt =====
-- `validateConfig`: the checks on `config/branding.config.json`, and the configuration that has
-- passed them.
pub mod Laws
use satosa_saml2spid.Base.{String, ◌<>◌, Option, some, Result, ok, err, ◌>>=◌}
use satosa_saml2spid.Json.{Json, str, arr, obj, Fields, lookup}

pub record Localized : Type 0 where
  pub it : String
  pub en : String

pub record Logo : Type 0 where
  pub image : String
  pub alt : Localized

pub record FooterLinks : Type 0 where
  pub legal_url : String
  pub privacy_url : String
  pub accessibility_url : String

pub record FooterText : Type 0 where
  pub legal : Localized
  pub privacy : Localized
  pub accessibility : Localized

pub record IdentityProviders : Type 0 where
  pub find_digital_id_url : String
  pub cie_saml2_login_url : String
  pub cie_oidc_login_url : String
  pub eidas_login_url : String
  pub idem_login_url : String

pub record ErrorPage : Type 0 where
  pub login_url : String
  pub assistance_url : String
  pub privacy_url : String

pub record Assets : Type 0 where
  pub cache_bust_version : String
  pub fonts_public_path : String

-- The fields that the checks show to be there.
pub record Branding : Type 0 where
  pub static_base_path : String
  pub organization_name : Localized
  pub logo : Logo
  pub wallet_brand_logo : String
  pub footer_links : FooterLinks
  pub footer_text : FooterText
  pub identity_providers : IdentityProviders
  pub error_page : ErrorPage
  pub assets : Assets

abbrev invalid {ℓ} : {A : Type ℓ} → String → Result A
invalid message = err ("Invalid branding config: " <> message)

-- `assert(typeof value === 'string', message)`, and the string.
unfoldable pub assert_string : Option Json → String → Result String
assert_string (some (str s)) message = ok s
assert_string _ message = invalid message

-- `assert(value && typeof value === 'object', message)`, and the properties. The `typeof` of an
-- array is 'object' too.
unfoldable pub assert_object : Option Json → String → Result Fields
assert_object (some (obj fs)) message = ok fs
assert_object (some (arr fs)) message = ok fs
assert_object _ message = invalid message

unfoldable pub assert_localized : Option Json → String → Result Localized
unfolding ◌>>=◌
assert_localized value name = do
  fs ← assert_object value (name <> " must be an object with it/en")
  it ← assert_string (lookup "it" fs) (name <> ".it must be a string")
  en ← assert_string (lookup "en" fs) (name <> ".en must be a string")
  ok (record { it = it; en = en })

unfoldable pub check_logo : Fields → Result Logo
unfolding ◌>>=◌
check_logo fs = do
  image ← assert_string (lookup "image" fs) "logo.image must be a string"
  alt ← assert_localized (lookup "alt" fs) "logo.alt"
  ok (record { image = image; alt = alt })

unfoldable pub check_footer_links : Fields → Result FooterLinks
unfolding ◌>>=◌
check_footer_links fs = do
  legal ← assert_string (lookup "legalUrl" fs) "footerLinks.legalUrl must be a string"
  privacy ← assert_string (lookup "privacyUrl" fs) "footerLinks.privacyUrl must be a string"
  access ←
      assert_string (lookup "accessibilityUrl" fs) "footerLinks.accessibilityUrl must be a string"
  ok (record { legal_url = legal; privacy_url = privacy; accessibility_url = access })

unfoldable pub check_footer_text : Fields → Result FooterText
unfolding ◌>>=◌
check_footer_text fs = do
  legal ← assert_localized (lookup "legal" fs) "footerText.legal"
  privacy ← assert_localized (lookup "privacy" fs) "footerText.privacy"
  access ← assert_localized (lookup "accessibility" fs) "footerText.accessibility"
  ok (record { legal = legal; privacy = privacy; accessibility = access })

abbrev provider : Fields → String → Result String
provider fs key = assert_string (lookup key fs) ("identityProviders." <> key <> " must be a string")

unfoldable pub check_providers : Fields → Result IdentityProviders
unfolding ◌>>=◌
check_providers fs = do
  find ← provider fs "findDigitalIdUrl"
  saml2 ← provider fs "cieSaml2LoginUrl"
  oidc ← provider fs "cieOidcLoginUrl"
  eidas ← provider fs "eidasLoginUrl"
  idem ← provider fs "idemLoginUrl"
  ok (record {
    find_digital_id_url = find;
    cie_saml2_login_url = saml2;
    cie_oidc_login_url = oidc;
    eidas_login_url = eidas;
    idem_login_url = idem;
  })

unfoldable pub check_error_page : Fields → Result ErrorPage
unfolding ◌>>=◌
check_error_page fs = do
  login ← assert_string (lookup "loginUrl" fs) "errorPage.loginUrl must be a string"
  assistance ← assert_string (lookup "assistanceUrl" fs) "errorPage.assistanceUrl must be a string"
  privacy ← assert_string (lookup "privacyUrl" fs) "errorPage.privacyUrl must be a string"
  ok (record { login_url = login; assistance_url = assistance; privacy_url = privacy })

unfoldable pub check_assets : Fields → Result Assets
unfolding ◌>>=◌
check_assets fs = do
  version ← assert_string (lookup "cacheBustVersion" fs) "assets.cacheBustVersion must be a string"
  fonts ← assert_string (lookup "fontsPublicPath" fs) "assets.fontsPublicPath must be a string"
  ok (record { cache_bust_version = version; fonts_public_path = fonts })

unfoldable pub validate_config : Json → Result Branding
validate_config config = do
  fs ← assert_object (some config) "config must be an object"
  base ← assert_string (lookup "staticBasePath" fs) "staticBasePath must be a string"
  organization ← assert_localized (lookup "organizationName" fs) "organizationName"
  logo_fs ← assert_object (lookup "logo" fs) "logo required"
  logo ← check_logo logo_fs
  wallet_logo ← assert_string (lookup "walletBrandLogo" fs) "walletBrandLogo must be a string"
  links_fs ← assert_object (lookup "footerLinks" fs) "footerLinks required"
  links ← check_footer_links links_fs
  text_fs ← assert_object (lookup "footerText" fs) "footerText required"
  text ← check_footer_text text_fs
  idp_fs ← assert_object (lookup "identityProviders" fs) "identityProviders required"
  idp ← check_providers idp_fs
  page_fs ← assert_object (lookup "errorPage" fs) "errorPage required"
  page ← check_error_page page_fs
  assets_fs ← assert_object (lookup "assets" fs) "assets required"
  assets ← check_assets assets_fs
  ok (record {
    static_base_path = base;
    organization_name = organization;
    logo = logo;
    wallet_brand_logo = wallet_logo;
    footer_links = links;
    footer_text = text;
    identity_providers = idp;
    error_page = page;
    assets = assets;
  })
