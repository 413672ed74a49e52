-- ===== src/Base/Results.antt =====
-- Calls that may throw. The text of the error is left out.
use mathlib.Core.Bool.{Bool, true, false}
use mathlib.Core.Path.{◌≡◌, refl}
use mathlib.Core.Logic.{◌⊎◌, inl, inr}

pub data Result {ℓ} (A : Type ℓ) : Type ℓ where
  thrown : Result A
  ok : A → Result A

-- `if (c) throw …`
abbrev pub throw_if : Bool → Result (Unit {0})
throw_if false = ok tt
throw_if true = thrown

pub ok-ne-thrown {ℓ} : {A : Type ℓ} {a : A} → thrown ≡ ok a → ⊥
ok-ne-thrown h = cc

pub ok_injective {ℓ} : {A : Type ℓ} {a b : A} → ok a ≡ ok b → a ≡ b
ok_injective h = cc

infixl 5 ◌>>=◌
abbrev pub ◌>>=◌ {ℓ κ} :
    {A : Type ℓ} {B : Type κ} (first : Result A) (next : A → Result B) → Result B
thrown >>= next = thrown
ok value >>= next = next value

-- Inversion of a chain that did not throw.
pub >>=-eq-ok {ℓ κ} :
    {A : Type ℓ} {B : Type κ} (first : Result A) (next : A → Result B) {b : B}
    → (first >>= next) ≡ ok b
    → (a : A) × (first ≡ ok a) × (next a ≡ ok b)
>>=-eq-ok thrown next h = cc
>>=-eq-ok (ok value) next h = (value, refl, h)

-- A statement whose value is not used.
infixl 5 ◌>>◌
abbrev pub ◌>>◌ {κ} : {B : Type κ} (first : Result (Unit {0})) (second : Result B) → Result B
first >> second = first >>= λ done. second

pub Result-cases {ℓ} : {A : Type ℓ} (r : Result A) → (r ≡ thrown) ⊎ ((a : A) × (r ≡ ok a))
Result-cases thrown = inl refl
Result-cases (ok a) = inr (a, refl)
