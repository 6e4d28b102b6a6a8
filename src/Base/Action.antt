-- ===== src/Base/Action.antt =====
-- Methods that change their object, and return, fail with a message, or throw.
use mathlib.Core.List.{[], ◌∷◌}
use scrig.Base.Bytes.{Bytes}
use scrig.Base.Fault.{Error}

pub data Outcome {ℓ} (A : Type ℓ) : Type ℓ where
  value : A → Outcome A
  fails : (message : Bytes) → Outcome A
  throws : Error → Outcome A

-- A Boolean result with `error_message` is `value` for true and `fails` for false.
abbrev pub Action {ℓ κ} : Type ℓ → Type κ → Type (ℓ ⊔ κ)
Action S A = S → Outcome A × S

abbrev pub continue_with {ℓ κ μ} :
    {S : Type ℓ} {A : Type κ} {B : Type μ} → Outcome A × S → (A → Action S B) → Outcome B × S
continue_with (value a, s) f = f a s
continue_with (fails message, s) f = (fails message, s)
continue_with (throws error, s) f = (throws error, s)

infixl 5 ◌>>=◌ ◌>>◌
abbrev pub ◌>>=◌ {ℓ κ μ} :
    {S : Type ℓ} {A : Type κ} {B : Type μ} → Action S A → (A → Action S B) → Action S B
(m >>= f) s = continue_with (m s) f

abbrev pub ◌>>◌ {ℓ κ μ} :
    {S : Type ℓ} {A : Type κ} {B : Type μ} → Action S A → Action S B → Action S B
m >> k = m >>= λ _. k

module _ {ℓ} {S : Type ℓ} where
  abbrev pub give {κ} : {A : Type κ} → A → Action S A
  give a s = (value a, s)

  abbrev pub fail {κ} : {A : Type κ} → Bytes → Action S A
  fail message s = (fails message, s)

  abbrev pub raise {κ} : {A : Type κ} → Error → Action S A
  raise error s = (throws error, s)

  abbrev pub get : Action S S
  get s = (value s, s)

  abbrev pub modify : (S → S) → Action S (Unit {0})
  modify f s = (value tt, f s)

-- The result of a call whose failure the caller looks at; an exception passes.
pub data Tried {ℓ} (A : Type ℓ) : Type ℓ where
  done : A → Tried A
  failed : (message : Bytes) → Tried A

abbrev pub tried {ℓ κ} : {S : Type ℓ} {A : Type κ} → Outcome A × S → Outcome (Tried A) × S
tried (value a, s) = (value (done a), s)
tried (fails message, s) = (value (failed message), s)
tried (throws error, s) = (throws error, s)

abbrev pub attempt {ℓ κ} : {S : Type ℓ} {A : Type κ} → Action S A → Action S (Tried A)
attempt m s = tried (m s)

-- The message of a failure, or `default` where it is empty.
abbrev pub message_or : (default message : Bytes) → Bytes
message_or default message = elim message [ [] ↦ default | c ∷ rest ↦ c ∷ rest ]

abbrev pub relabelled {ℓ κ} :
    {S : Type ℓ} {A : Type κ} → (Bytes → Bytes) → Outcome A × S → Outcome A × S
relabelled f (value a, s) = (value a, s)
relabelled f (fails message, s) = (fails (f message), s)
relabelled f (throws error, s) = (throws error, s)

abbrev pub relabel {ℓ κ} : {S : Type ℓ} {A : Type κ} → (Bytes → Bytes) → Action S A → Action S A
relabel f m s = relabelled f (m s)
