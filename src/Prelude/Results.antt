-- ===== src/Prelude/Results.antt =====
-- A result that carries its reason when it is refused.
use mathlib.Core.Path.{◌≡◌, refl}
use mathlib.Core.Bool.{Bool, true, false}

pub data Result (E A : Type 0) : Type 0 where
  err : E → Result E A
  ok : A → Result E A

infixl 5 ◌>>=◌ ◌>>◌
abbrev pub ◌>>=◌ : {E A B : Type 0} → Result E A → (A → Result E B) → Result E B
err reason >>= next = err reason
ok value >>= next = next value

abbrev pub ◌>>◌ : {E B : Type 0} → Result E (Unit {0}) → Result E B → Result E B
first >> next = first >>= λ done. next

-- A guard clause: `if (refused) return reason;`.
abbrev pub refuse_if : {E : Type 0} → Bool → E → Result E (Unit {0})
refuse_if false reason = ok tt
refuse_if true reason = err reason

module _ {E A B : Type 0} (r : Result E A) (next : A → Result E B) {b : B} where
  -- A chain that ends well began well.
  pub bind-eq-ok : (r >>= next) ≡ ok b → (a : A) × (r ≡ ok a) × (next a ≡ ok b)
  bind-eq-ok = invert r
    where
      invert : (s : Result E A) → (s >>= next) ≡ ok b → (a : A) × (s ≡ ok a) × (next a ≡ ok b)
      invert (err reason) q = cc
      invert (ok value) q = (value, refl, q)

pub ok-injective : {E A : Type 0} {a b : A} → ◌≡◌ {A = Result E A} (ok a) (ok b) → a ≡ b
ok-injective q = cc
