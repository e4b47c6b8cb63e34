-- ===== src/Json/Laws.antt =====
-- The laws of `lookup` and `insert` on the properties of an object.
use satosa_saml2spid.Base.{
  String, ◌≡◌, refl, some, arith, ◌==◌, eq_iff, if◌then◌else◌, Bool-cases, inl, inr, eq_refl, false,
}
use satosa_saml2spid.Json.{Json, Fields, end, field, lookup, insert}

pub lookup-insert :
    (k j : String) (v : Json) (fs : Fields)
    → lookup j (insert k v fs) ≡ (if k == j then some v else lookup j fs)
unfolding lookup insert
lookup-insert k j v end = refl
lookup-insert k j v (field i w fs) =
    ground (arith, eq_iff k j, eq_iff i k, eq_iff i j, lookup-insert k j v fs)

pub lookup-insert_self : (k : String) (v : Json) (fs : Fields) → lookup k (insert k v fs) ≡ some v
lookup-insert_self k v fs = ground (arith, lookup-insert k k v fs, eq_refl k)

pub lookup-insert_ne :
    (k j : String) (v : Json) (fs : Fields)
    → (k == j) ≡ false
    → lookup j (insert k v fs) ≡ lookup j fs
lookup-insert_ne k j v fs ne = ground (arith, lookup-insert k j v fs)

-- Writing the value that is there changes nothing, the order of the properties included.
pub insert_same : (k : String) (v : Json) (fs : Fields) → lookup k fs ≡ some v → insert k v fs ≡ fs
unfolding lookup insert
insert_same k v end h = cc
insert_same k v (field j w fs) h = elim (Bool-cases (j == k)) [
  | inl e ↦ ground arith
  | inr n ↦ ground (arith, insert_same k v fs)
]
