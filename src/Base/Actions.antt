-- ===== src/Base/Actions.antt =====
-- Code that changes a state and may throw: what was written before an exception stays written.
use Prim.Native.String.{String}
use mathlib.Core.Path.{◌≡◌, refl}
use mathlib.Core.Bool.{Bool, true, false}
use satosa_saml2spid.Base.Tests.{if◌then◌else◌}
use satosa_saml2spid.Base.Results.{Result, ok, err}

-- The end of a piece of code: its state, and the exception that ended it, if one did.
pub data Ended {ℓ} (S : Type ℓ) : Type ℓ where
  done : S → Ended S
  threw : String → S → Ended S

module _ {ℓ} {S : Type ℓ} where
  abbrev pub state_of : Ended S → S
  state_of (done s) = s
  state_of (threw e s) = s

  -- What follows, unless an exception was thrown.
  unfoldable pub and_then : Ended S → (S → Ended S) → Ended S
  and_then (done s) f = f s
  and_then (threw e s) f = threw e s

  -- A step that reads before it writes: an exception leaves the state.
  unfoldable pub try_write {κ} : {A : Type κ} → Result A → (A → S → S) → S → Ended S
  try_write (ok a) f s = done (f a s)
  try_write (err e) f s = threw e s

-- A state that holds at the end, or that an exception leaves.
pub data Ends {ℓ κ} {S : Type ℓ} (P Q : S → Type κ) : Ended S → Type (ℓ ⊔ κ) where
  at_done : (s : S) → P s → Ends P Q (done s)
  at_threw : (e : String) (s : S) → Q s → Ends P Q (threw e s)

module _ {ℓ κ} {S : Type ℓ} {P Q : S → Type κ} where
  pub Ends-and_then :
      {R : S → Type κ} {m : Ended S} {f : S → Ended S}
      → Ends R Q m
      → ((s : S) → R s → Ends P Q (f s))
      → Ends P Q (and_then m f)
  unfolding and_then
  Ends-and_then (at_done s h) k = k s h
  Ends-and_then (at_threw e s h) k = at_threw e s h

  pub Ends-try_write {μ} :
      {A : Type μ} (r : Result A) (f : A → S → S) (s : S)
      → ((a : A) → P (f a s))
      → Q s
      → Ends P Q (try_write r f s)
  unfolding try_write
  Ends-try_write (ok a) f s k q = at_done _ (k a)
  Ends-try_write (err e) f s k q = at_threw e _ q

  pub Ends-if : (b : Bool) {m n : Ended S} → Ends P Q m → Ends P Q n → Ends P Q (if b then m else n)
  Ends-if true hm hn = hm
  Ends-if false hm hn = hn

-- What ends without an exception has a first part that does.
pub and_then-eq-done {ℓ} :
    {S : Type ℓ} (m : Ended S) (f : S → Ended S) (s : S)
    → and_then m f ≡ done s
    → (s1 : S) × (m ≡ done s1) × (f s1 ≡ done s)
unfolding and_then
and_then-eq-done (done s1) f s h = (s1, refl, h)
and_then-eq-done (threw e s1) f s h = cc
