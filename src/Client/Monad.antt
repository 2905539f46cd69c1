-- ===== src/Client/Monad.antt =====
-- Calls that may fail and that change the world, and Go's errors as values.
use node_disruption_controll.Prelude.{ℕ, String, ◌⊎◌, ◌≡◌, inl, inr, refl, ap}
use node_disruption_controll.Prelude.Int.{ℤ}

-- The hooks of an application manager.
pub data Hook : Type 0 where
  prepare ready terminate : Hook

-- An error of the API server that `errors.IsNotFound` recognises; the error values of the
-- application manager's client (424, 425 with its delay, any other code, `runtime.APIError`); and
-- any other error with its text.
pub data Error : Type 0 where
  not_found : String → Error
  failed_dependency : Hook → Error
  retry_later : Hook → ℤ → Error
  default_error : Hook → ℕ → String → Error
  api_error : String → ℕ → Error
  failure : String → Error

pub data Result {ℓ} (A : Type ℓ) : Type ℓ where
  ok : A → Result A
  err : Error → Result A

abbrev pub Action : Type 0 → Type 0 → Type 0
Action W A = W → Result A × W

module _ {W : Type 0} {A : Type 0} where
  abbrev pub pure : A → Action W A
  pure a w = (ok a, w)

  abbrev pub raise : Error → Action W A
  raise e w = (err e, w)

  -- A computation that changes nothing.
  abbrev pub lift : Result A → Action W A
  lift r w = (r, w)

-- The action's result and its error both go on: what `if err != nil` does is written by cases.
abbrev pub handle : {W A B : Type 0} → Action W A → (Result A → Action W B) → Action W B
handle m f w = let (r, w') = m w in f r w'

-- What a sequence does after its first step has ended.
abbrev continue_with : {W A B : Type 0} → (A → Action W B) → Result A → W → Result B × W
continue_with f (ok a) w = f a w
continue_with f (err e) w = (err e, w)

infixl 5 ◌>>=◌ ◌>>◌
abbrev pub ◌>>=◌ : {W A B : Type 0} → Action W A → (A → Action W B) → Action W B
◌>>=◌ m f w = let (r, w') = m w in continue_with f r w'

abbrev pub ◌>>◌ : {W A B : Type 0} → Action W A → Action W B → Action W B
m >> k = m >>= λ _. k

pub Result-cases {ℓ} :
    {A : Type ℓ} (r : Result A) → ((a : A) × (r ≡ ok a)) ⊎ ((e : Error) × (r ≡ err e))
Result-cases (ok a) = inl (a, refl)
Result-cases (err e) = inr (e, refl)

continue_with-eq-ok :
    {W A B : Type 0} (f : A → Action W B) (r : Result A) (w : W) {b : B} {w' : W}
    → continue_with f r w ≡ (ok b, w')
    → (a : A) × (r ≡ ok a) × (f a w ≡ (ok b, w'))
continue_with-eq-ok f (ok a) w h = (a, refl, h)
continue_with-eq-ok f (err e) w h = cc (ap (λ (p : Result _ × _). p.0) h)

-- The steps of a sequence that succeeds.
pub >>=-eq-ok :
    {W A B : Type 0} (m : Action W A) (f : A → Action W B) (w : W) {b : B} {w' : W}
    → (m >>= f) w ≡ (ok b, w')
    → (a : A) × (between : W) × (m w ≡ (ok a, between)) × (f a between ≡ (ok b, w'))
>>=-eq-ok m f w h =
    let (a, e, k) = continue_with-eq-ok f (m w).0 (m w).1 h in (a, (m w).1, λ i. (e i, (m w).1), k)

-- A sequence goes on with what its first step gives.
pub >>=-ok :
    {W A B : Type 0} (m : Action W A) (f : A → Action W B) (w : W) {a : A}
    → (m w).0 ≡ ok a
    → (m >>= f) w ≡ f a (m w).1
>>=-ok m f w h = ap (λ r. continue_with f r (m w).1) h

pub >>=-step :
    {W A B : Type 0} (m : Action W A) (f : A → Action W B) (w : W) {a : A} {between : W}
    → m w ≡ (ok a, between)
    → (m >>= f) w ≡ f a between
>>=-step m f w h = ap (λ (p : Result _ × _). continue_with f p.0 p.1) h
