-- ===== src/Base/Fault.antt =====
-- Functions that may throw. A message is kept as the source words it.
use Prim.Native.String.{String}
use Prim.Native.Nat.{ℕ}
use mathlib.Core.Path.{◌≡◌, refl}
use mathlib.Core.Logic.{◌⊎◌, inl, inr}
use mathlib.Core.List.{List, [], ◌∷◌}
use scrig.Base.Bytes.{Bytes}

-- std::runtime_error, `require_field`'s message with its key, and JsonError without and with the
-- position that `Parser::error` appends, an error of the platform with its text; the last is no exception, a bound on the rounds is reached.
pub data Error : Type 0 where
  runtime_error : String → Error
  missing_field : Bytes → Error
  json_error : String → Error
  json_error_at : String → ℕ → Error
  system_error : (what : Bytes) → Error
  rounds_exhausted : Error

pub data Result {ℓ} (A : Type ℓ) : Type ℓ where
  ok : A → Result A
  throw : Error → Result A

infixl 5 ◌>>=◌ ◌>>◌
abbrev pub ◌>>=◌ {ℓ κ} : {A : Type ℓ} {B : Type κ} → Result A → (A → Result B) → Result B
ok a >>= f = f a
throw e >>= f = throw e

abbrev pub ◌>>◌ {ℓ κ} : {A : Type ℓ} {B : Type κ} → Result A → Result B → Result B
m >> k = m >>= λ _. k

-- A loop that pushes one result for each element.
abbrev pub traverse {ℓ κ} : {A : Type ℓ} {B : Type κ} → (A → Result B) → List A → Result (List B)
traverse f [] = ok []
traverse f (x ∷ xs) = do y ← f x; ys ← traverse f xs; ok (y ∷ ys)

pub traverse-map {ℓ κ μ} :
    {A : Type ℓ} {B : Type κ} {C : Type μ} (f : B → Result C) (g : A → B) (h : A → C)
    → ((a : A) → f (g a) ≡ ok (h a))
    → (xs : List A) → traverse f (mathlib.Core.List.map g xs) ≡ ok (mathlib.Core.List.map h xs)
traverse-map f g h e [] = refl
traverse-map f g h e (x ∷ xs) = rw (e x, traverse-map f g h e xs)

pub Result-cases {ℓ} :
    {A : Type ℓ} (r : Result A) → ((a : A) × (r ≡ ok a)) ⊎ ((error : Error) × (r ≡ throw error))
Result-cases (ok a) = inl (a, refl)
Result-cases (throw error) = inr (error, refl)
