-- ===== src/Json.antt =====
-- JSON values, which the locale files, the branding configuration and the wallet list hold.
pub mod Laws
use satosa_saml2spid.Base.{String, Bool, Option, none, some}
use satosa_saml2spid.Base.{◌==◌, if◌then◌else◌}

-- A number is held by the text that `String(n)` gives. An array is held by its own properties,
-- whose keys are the indices, so that a string-keyed write reaches it as in the language.
mutual
  pub data Json : Type 0 where
    null : Json
    bool : Bool → Json
    num : String → Json
    str : String → Json
    arr : Fields → Json
    obj : Fields → Json

  -- Own properties, in the order of enumeration.
  pub data Fields : Type 0 where
    end : Fields
    field : String → Json → Fields → Fields

unfoldable pub lookup : String → Fields → Option Json
lookup k end = none
lookup k (field j v fs) = if j == k then some v else lookup k fs

-- `o[k] = v` on the properties of an object: in place, or appended.
unfoldable pub insert : String → Json → Fields → Fields
insert k v end = field k v end
insert k v (field j w fs) = if j == k then field j v fs else field j w (insert k v fs)
