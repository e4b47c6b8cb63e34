-- ===== src/Base/Results.antt =====
-- Results of code that may throw: the error is the message of the exception.
use Prim.Native.String.{String}
use mathlib.Core.Path.{◌≡◌, refl, ap, subst, ◌∙◌}

pub data Result {ℓ} (Value : Type ℓ) : Type ℓ where
  err : (message : String) → Result Value
  ok : (value : Value) → Result Value

module _ {ℓ κ} {Value : Type ℓ} {Next : Type κ} where
  infixl 5 ◌>>=◌
  -- What follows a result, unless an exception was thrown.
  unfoldable pub ◌>>=◌ : Result Value → (Value → Result Next) → Result Next
  err message >>= next = err message
  ok value >>= next = next value

-- What holds of every result that is returned.
pub data Ensures {ℓ κ} {A : Type ℓ} (P : A → Type κ) : Result A → Type (ℓ ⊔ κ) where
  returned : (a : A) → P a → Ensures P (ok a)
  thrown : (e : String) → Ensures P (err e)

pub Ensures-bind {ℓ κ μ} :
    {A : Type ℓ} {B : Type κ} {P : B → Type μ} (m : Result A) (f : A → Result B)
    → ((a : A) → m ≡ ok a → Ensures P (f a))
    → Ensures P (m >>= f)
unfolding ◌>>=◌
Ensures-bind (ok a) f k = k a refl
Ensures-bind (err e) f k = thrown e

-- Of a result that is returned, what every such result has.
pub Ensures-ok {ℓ κ} :
    {A : Type ℓ} {P : A → Type κ} (m : Result A) (a : A) → Ensures P m → m ≡ ok a → P a
Ensures-ok {P} (ok _) a (returned b p) h = subst P (cc) p
Ensures-ok (err e) a t h = cc

-- What is returned comes from a value that was returned before it.
pub bind-eq-ok {ℓ κ} :
    {A : Type ℓ} {B : Type κ} (m : Result A) (f : A → Result B) (b : B)
    → m >>= f ≡ ok b
    → (a : A) × (m ≡ ok a) × (f a ≡ ok b)
unfolding ◌>>=◌
bind-eq-ok (err e) f b h = cc
bind-eq-ok (ok a) f b h = (a, refl, h)

abbrev ok_pair {ℓ κ} : {A : Type ℓ} {B : Type κ} → A → B → Result (A × B)
ok_pair x y = ok (x, y)

-- A value and the one that was made from it, returned together.
pub pair-eq-ok {ℓ κ} :
    {A : Type ℓ} {B : Type κ} (m : Result A) (f : A → Result B) (a : A) (b : B)
    → (m >>= λ x. f x >>= ok_pair x) ≡ ok (a, b)
    → (m ≡ ok a) × (f a ≡ ok b)
unfolding ◌>>=◌
pair-eq-ok (err e) f a b h = cc
pair-eq-ok (ok x) f a b h =
    let (y, t, u) = bind-eq-ok (f x) _ (a, b) h in
    let e : x ≡ a = cc in let d : y ≡ b = cc in (ap ok e, subst (λ z. f z ≡ ok b) e (t ∙ ap ok d))
