-- ===== src/Config/Paths.antt =====
-- `setByPath`: a write at a dotted path of a JSON value.
pub mod Laws
use Prim.Native.Char.{code}
use satosa_saml2spid.Base.{
  String, Bool, true, Option, none, some, List, [], ◌∷◌, ◌==◌, if◌then◌else◌, eqb, not,
}
use satosa_saml2spid.Json.{Json, arr, obj, Fields, end, lookup, insert}

-- The keys of a path: `split` never gives an empty array.
pub record Keys : Type 0 where
  pub first : String
  pub others : List String

-- `dottedPath.split('.')`.
unfoldable pub split_dot : String → Keys
split_dot String.[] = record { first = ""; others = [] }
split_dot (String.◌∷◌ c s) =
    let rest = split_dot s in
    if eqb (code c) b'.'
    then record { first = ""; others = rest.first ∷ rest.others }
    else record { first = String.◌∷◌ c rest.first; others = rest.others }

-- The properties below a value; a missing or primitive one is replaced by `{}`.
unfoldable pub children : Option Json → Fields
children (some (obj fs)) = fs
children (some (arr fs)) = fs
children _ = end

-- The object of which the properties have been written: an array stays an array.
unfoldable pub rebuild : Option Json → Fields → Json
rebuild (some (arr fs)) gs = arr gs
rebuild _ gs = obj gs

-- The loop of `setByPath`, and the write at the last key.
unfoldable pub put : String → List String → Json → Fields → Fields
put k [] v fs = insert k v fs
put k (j ∷ ks) v fs =
    let below = lookup k fs in insert k (rebuild below (put j ks v (children below))) fs

-- `none` is the TypeError of a property write on `null` or on a primitive value.
unfoldable pub set_by_path : Json → String → Json → Option Json
unfolding put
set_by_path (obj fs) dotted_path v =
    let p = split_dot dotted_path in some (obj (put p.first p.others v fs))
set_by_path (arr fs) dotted_path v =
    let p = split_dot dotted_path in some (arr (put p.first p.others v fs))
set_by_path _ dotted_path v = none

-- The value at a path, as `cursor[k]` reads it.
unfoldable pub get : String → List String → Fields → Option Json
get k [] fs = lookup k fs
get k (j ∷ ks) fs = get j ks (children (lookup k fs))

-- Neither path begins with the other.
unfoldable pub diverge : String → List String → String → List String → Bool
diverge k [] j [] = not (k == j)
diverge k [] j (_ ∷ _) = not (k == j)
diverge k (_ ∷ _) j [] = not (k == j)
diverge k (k' ∷ ks) j (j' ∷ js) = if k == j then diverge k' ks j' js else true
