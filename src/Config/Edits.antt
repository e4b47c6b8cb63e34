-- ===== src/Config/Edits.antt =====
-- `buildJsonEdits`, and the loop of `applyToSources` that writes its edits into a locale file.
pub mod Laws
use satosa_saml2spid.Base.{String, Bool, true, ◌&&◌, Option, none, some, List, [], ◌∷◌, all}
use satosa_saml2spid.Json.{Json, str}
use satosa_saml2spid.Config.Paths.{split_dot, get, diverge, children, set_by_path}
use satosa_saml2spid.Config.Branding.{Localized, Branding, IdentityProviders}

-- An entry `dotPath: value`.
pub record Edit : Type 0 where
  pub dot_path : String
  pub value : Json

abbrev edit : String → String → Edit
edit dot_path text = record { dot_path = dot_path; value = str text }

-- `'it'` and `'en'`, and `x[lang]`.
pub data Lang : Type 0 where
  it en : Lang

abbrev pub in_lang : Localized → Lang → String
in_lang l it = l.it
in_lang l en = l.en

unfoldable pub idp_edits : IdentityProviders → List Edit
idp_edits idp =
    edit "titles.find_how_to_get_digital_id_url" idp.find_digital_id_url
    ∷ edit "digital_id.cie.login_url" idp.cie_saml2_login_url
    ∷ edit "digital_id.cie_oidc.login_url" idp.cie_oidc_login_url
    ∷ edit "digital_id.eidas.login_url" idp.eidas_login_url
    ∷ edit "alternative_id.idem.login_url" idp.idem_login_url
    ∷ []

module _ (config : Branding) where
  open config use {organization_name as org, logo.{alt}, footer_text as footer}

  unfoldable pub eid : Lang → List Edit
  unfolding idp_edits
  eid lang =
      edit "header.region_name" (in_lang org lang)
      ∷ edit "titles.login_logo" (in_lang alt lang)
      ∷ edit "footer.legal_notice" (in_lang footer.legal lang)
      ∷ edit "footer.privacy_policy" (in_lang footer.privacy lang)
      ∷ edit "footer.accessibility_statement" (in_lang footer.accessibility lang)
      ∷ idp_edits config.identity_providers

  unfoldable pub wallet : Lang → List Edit
  wallet lang =
      edit "header.region_name" (in_lang org lang)
      ∷ edit "titles.logo_title" (in_lang alt lang)
      ∷ edit "footer.legal_notice" (in_lang footer.legal lang)
      ∷ edit "footer.privacy_policy" (in_lang footer.privacy lang)
      ∷ edit "footer.accessibility_statement" (in_lang footer.accessibility lang)
      ∷ []

  unfoldable pub error : Lang → List Edit
  error lang =
      edit "header.region_name" (in_lang org lang)
      ∷ edit "header.organization_name" (in_lang org lang)
      ∷ edit "header.logo_title" (in_lang alt lang)
      ∷ edit "footer.organization_name" (in_lang org lang)
      ∷ edit "footer.legal_notes" (in_lang footer.legal lang)
      ∷ edit "footer.privacy" (in_lang footer.privacy lang)
      ∷ edit "footer.accessibility" (in_lang footer.accessibility lang)
      ∷ []

  -- The edits, keyed by file.
  unfoldable pub build_json_edits : List (String × List Edit)
  unfolding eid wallet error
  build_json_edits =
      ("locales/eid-it.json", eid it)
      ∷ ("locales/eid-en.json", eid en)
      ∷ ("locales/it-wallet-it.json", wallet it)
      ∷ ("locales/it-wallet-en.json", wallet en)
      ∷ ("locales/error-it.json", error it)
      ∷ ("locales/error-en.json", error en)
      ∷ []

-- `for (const [dotPath, value] of …) setByPath(obj, dotPath, value)`; `none` is a TypeError.
unfoldable pub apply_edits : List Edit → Json → Option Json
apply_edits [] root = some root
apply_edits (e ∷ es) root = elim (set_by_path root e.dot_path e.value) [
  | none ↦ none
  | some root' ↦ apply_edits es root'
]

-- The value at a dotted path of a value.
unfoldable pub get_by_path : Json → String → Option Json
get_by_path root dot_path =
    let p = split_dot dot_path in get p.first p.others (children (some root))

-- Neither of two dotted paths begins with the other.
unfoldable pub apart : String → String → Bool
apart p q = let a = split_dot p in let b = split_dot q in diverge a.first a.others b.first b.others

-- The paths of a list of edits are pairwise apart.
unfoldable pub spread : List Edit → Bool
spread [] = true
spread (e ∷ es) = all (λ later. apart later.dot_path e.dot_path) es && spread es
