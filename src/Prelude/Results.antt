-- ===== src/Prelude/Results.antt =====
-- Fallible code: a value or the error that was thrown.
use Prim.Native.Nat.{ℕ, ◌≤◌}
use mathlib.Core.Path.{◌≡◌, refl}
use mathlib.Core.Bool.{Bool, true, false}
use native.Mathlib.Omega.{arith}
use runcell.Prelude.Tests.{ltb}

pub data Result {ℓ} (E : Type 0) (A : Type ℓ) : Type ℓ where
  ok : A → Result E A
  err : E → Result E A

infixl 5 ◌>>=◌ ◌>>◌
abbrev pub ◌>>=◌ {ℓ κ} :
    {E : Type 0} {A : Type ℓ} {B : Type κ} → Result E A → (A → Result E B) → Result E B
ok x >>= next = next x
err thrown >>= next = err thrown

abbrev pub ◌>>◌ {ℓ} : {E : Type 0} {B : Type ℓ} → Result E (Unit {0}) → Result E B → Result E B
m >> k = m >>= λ _. k

-- `if (failed) throw e`.
abbrev pub throw_if : {E : Type 0} → Bool → E → Result E (Unit {0})
throw_if true e = err e
throw_if false e = ok tt

-- Inversion of a successful bind.
pub >>=-eq-ok {ℓ κ} :
    {E : Type 0} {A : Type ℓ} {B : Type κ} (r : Result E A) (next : A → Result E B) {y : B}
    → (r >>= next) ≡ ok y
    → (x : A) × (r ≡ ok x) × (next x ≡ ok y)
>>=-eq-ok (ok x) next e = (x, refl, e)
>>=-eq-ok (err thrown) next e = cc

pub throw_if-eq-ok :
    {E : Type 0} (b : Bool) (e : E) {u : Unit {0}} → throw_if b e ≡ ok u → b ≡ false
throw_if-eq-ok true e h = cc
throw_if-eq-ok false e h = refl

pub throw_if-ltb :
    {E : Type 0} (a b : ℕ) (e : E) {u : Unit {0}} → throw_if (ltb a b) e ≡ ok u → b ≤ a
throw_if-ltb a b e h = let over = throw_if-eq-ok (ltb a b) e h in ground arith

pub ok_injective {ℓ} :
    {E : Type 0} {A : Type ℓ} (a b : A) → ◌≡◌ {A = Result E A} (ok a) (ok b) → a ≡ b
ok_injective a b e = cc

pub >>=-cong {ℓ κ} :
    {E : Type 0} {A : Type ℓ} {B : Type κ} (r : Result E A) {f g : A → Result E B}
    → ((x : A) → f x ≡ g x)
    → (r >>= f) ≡ (r >>= g)
>>=-cong (ok x) same = same x
>>=-cong (err thrown) same = refl

pub >>=-assoc {ℓ κ μ} :
    {E : Type 0} {A : Type ℓ} {B : Type κ} {C : Type μ} (r : Result E A) (f : A → Result E B)
    (g : B → Result E C)
    → ((r >>= f) >>= g) ≡ (r >>= λ x. f x >>= g)
>>=-assoc (ok x) f g = refl
>>=-assoc (err thrown) f g = refl

pub >>=-ok {ℓ} : {E : Type 0} {A : Type ℓ} (r : Result E A) → (r >>= λ x. ok x) ≡ r
>>=-ok (ok x) = refl
>>=-ok (err thrown) = refl
