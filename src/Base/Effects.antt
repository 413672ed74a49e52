-- ===== src/Base/Effects.antt =====
-- Calls that change a state and may throw. What a failed call has changed stays changed.
use mathlib.Core.Path.{◌≡◌, refl}
use mathlib.Core.Logic.{◌⊎◌, inl, inr}
use mathlib.Core.Option.{Option, none, some}
use mathlib.Core.Bool.{Bool, true, false}
use mathlib.Core.List.{List, [], ◌∷◌}
use carmentis_node.Base.Results.{Result}

-- How a call ends, and the state that it leaves.
pub data Outcome (S : Type 0) (A : Type 0) : Type 0 where
  done : A → S → Outcome S A
  failed : S → Outcome S A

abbrev pub state_of : {S A : Type 0} → Outcome S A → S
state_of (done a s) = s
state_of (failed s) = s

abbrev pub Action : Type 0 → Type 0 → Type 0
Action S A = S → Outcome S A

abbrev pub pure : {S A : Type 0} → A → Action S A
pure a s = done a s

abbrev pub throw : {S A : Type 0} → Action S A
throw s = failed s

-- `if (c) throw …`
abbrev pub throw_when : {S : Type 0} → Bool → Action S (Unit {0})
throw_when true s = failed s
throw_when false s = done tt s

-- A call that may throw and changes nothing.
abbrev pub lift : {S A : Type 0} → Result A → Action S A
lift (Result.ok a) s = done a s
lift Result.thrown s = failed s

abbrev pub read : {S A : Type 0} → (S → A) → Action S A
read f s = done (f s) s

abbrev pub modify : {S : Type 0} → (S → S) → Action S (Unit {0})
modify f s = done tt (f s)

abbrev pub bind : {S A B : Type 0} → Outcome S A → (A → Action S B) → Outcome S B
bind (done a s) next = next a s
bind (failed s) next = failed s

-- `try { … } catch { … }` around a call whose error is only logged.
abbrev pub attempt : {S A : Type 0} → Action S A → Action S (Unit {0})
attempt act s = done tt (state_of (act s))

infixl 5 ◌>>=◌
abbrev pub ◌>>=◌ : {S A B : Type 0} → Action S A → (A → Action S B) → Action S B
◌>>=◌ first next s = bind (first s) next

infixl 5 ◌>>◌
abbrev pub ◌>>◌ : {S B : Type 0} → Action S (Unit {0}) → Action S B → Action S B
◌>>◌ first second s = bind (first s) (λ ended. second)

-- A loop over a list.
unfoldable pub for_each : {S A : Type 0} → (A → Action S (Unit {0})) → List A → Action S (Unit {0})
for_each act [] s = done tt s
for_each act (a ∷ l) s = bind (act a s) (λ ended. for_each act l)

-- Inversion of a chain that ended.
pub bind-eq-done :
    {S A B : Type 0} (first : Outcome S A) (next : A → Action S B) {b : B} {s' : S}
    → bind first next ≡ done b s'
    → (a : A) × (s : S) × (first ≡ done a s) × (next a s ≡ done b s')
bind-eq-done (done a s) next h = (a, s, refl, h)
bind-eq-done (failed s) next h = cc

pub done_injective : {S A : Type 0} {a b : A} {s t : S} → done a s ≡ done b t → (a ≡ b) × (s ≡ t)
done_injective h = (cc, cc)

pub done-ne-failed : {S A : Type 0} {a : A} {s t : S} → failed s ≡ done a t → ⊥
done-ne-failed h = cc

-- The same, where the first call is a check or a call that changes nothing.
pub throw_when-eq_done :
    {S B : Type 0} (c : Bool) {s : S} (next : Unit {0} → Action S B) {b : B} {s' : S}
    → bind (throw_when c s) next ≡ done b s'
    → (c ≡ false) × (next tt s ≡ done b s')
throw_when-eq_done true next h = cc
throw_when-eq_done false next h = (refl, h)

pub lift-eq_done :
    {S A B : Type 0} (r : Result A) {s : S} (next : A → Action S B) {b : B} {s' : S}
    → bind (lift r s) next ≡ done b s'
    → (a : A) × (r ≡ Result.ok a) × (next a s ≡ done b s')
lift-eq_done Result.thrown next h = cc
lift-eq_done (Result.ok a) next h = (a, refl, h)

pub lift-last :
    {S A : Type 0} (r : Result A) {s : S} {a : A} {s' : S}
    → lift r s ≡ done a s'
    → (r ≡ Result.ok a) × (s ≡ s')
lift-last Result.thrown h = cc
lift-last (Result.ok b) h = (cc, cc)

pub Outcome-cases :
    {S A : Type 0} (o : Outcome S A)
    → ((a : A) × (s : S) × (o ≡ done a s)) ⊎ ((s : S) × (o ≡ failed s))
Outcome-cases (done a s) = inl (a, s, refl)
Outcome-cases (failed s) = inr (s, refl)

-- The answer of a call, without the state that it leaves.
abbrev pub answer_of : {S A : Type 0} → Outcome S A → Option A
answer_of (done a s) = some a
answer_of (failed s) = none

pub answer_of-done :
    {S A : Type 0} (o : Outcome S A) {a : A} → answer_of o ≡ some a → o ≡ done a (state_of o)
answer_of-done (done b s) h = cc
answer_of-done (failed s) h = cc
