-- ===== src/Common/Outcome.antt =====
-- What a Go call does: it returns a value, returns an error, panics, or has not returned within the
-- fuel that the model gives a loop. State is passed along, and what was written stays written.
use mx_chain_simulator_go.Common.{⊤, ◌≡◌, refl, ◌⊎◌, inl, inr, arith, Bytes, ◌++◌}

-- A Go `error`: a message, or an error wrapped by `%w` between two texts.
pub data Error : Type 0 where
  message : Bytes → Error
  wrap : Bytes → Error → Bytes → Error

-- `err.Error()`
abbrev pub error_text : Error → Bytes
error_text (message m) = m
error_text (wrap before e after) = before ++ (error_text e ++ after)

pub data Outcome {ℓ} (A : Type ℓ) : Type ℓ where
  ok : A → Outcome A
  err : Error → Outcome A
  panics : Outcome A
  runs_on : Outcome A

abbrev pub Action {ℓ} : Type 0 → Type ℓ → Type ℓ
Action S A = S → Outcome A × S

module _ {S : Type 0} where
  abbrev pub pure {ℓ} : {A : Type ℓ} → A → Action S A
  pure a s = (ok a, s)

  abbrev pub fail {ℓ} : {A : Type ℓ} → Error → Action S A
  fail e s = (err e, s)

  abbrev pub crash {ℓ} : {A : Type ℓ} → Action S A
  crash s = (panics, s)

  abbrev pub gets {ℓ} : {A : Type ℓ} → (S → A) → Action S A
  gets f s = (ok (f s), s)

infixl 5 ◌>>=◌ ◌>>◌
abbrev pub ◌>>=◌ : {S A B : Type 0} → Action S A → (A → Action S B) → Action S B
◌>>=◌ m f s =
    let (r, t) = m s in
    elim r [ ok a ↦ f a t | err e ↦ (err e, t) | panics ↦ (panics, t) | runs_on ↦ (runs_on, t) ]

abbrev pub ◌>>◌ : {S B : Type 0} → Action S ⊤ → Action S B → Action S B
m >> k = m >>= λ _. k

-- The pair `value, err` that a call returns, when the caller looks at `err` itself.
pub data Try {ℓ} (A : Type ℓ) : Type ℓ where
  value : A → Try A
  error : Error → Try A

abbrev pub attempt : {S A : Type 0} → Action S A → Action S (Try A)
attempt m s =
    let (r, t) = m s in
    elim r [
      | ok a ↦ (ok (value a), t)
      | err e ↦ (ok (error e), t)
      | panics ↦ (panics, t)
      | runs_on ↦ (runs_on, t)
    ]

-- The value of a pure call that returns an error.
abbrev pub lift : {S A : Type 0} → Try A → Action S A
lift (value a) = pure a
lift (error e) = fail e

pub Try-cases : {A : Type 0} (t : Try A) → ((a : A) × (t ≡ value a)) ⊎ ((e : Error) × (t ≡ error e))
Try-cases (value a) = inl (a, refl)
Try-cases (error e) = inr (e, refl)

pub lift-eq-ok :
    {S A : Type 0} (t : Try A) (s : S) {a : A} {s' : S} → lift t s ≡ (ok a, s') → t ≡ value a
lift-eq-ok t s h = ground arith

pub Outcome-cases :
    {A : Type 0} (r : Outcome A)
    → ((a : A) × (r ≡ ok a)) ⊎ ((e : Error) × (r ≡ err e)) ⊎ (r ≡ panics) ⊎ (r ≡ runs_on)
Outcome-cases (ok a) = inl (a, refl)
Outcome-cases (err e) = inr (inl (e, refl))
Outcome-cases panics = inr (inr (inl refl))
Outcome-cases runs_on = inr (inr (inr refl))

-- A sequence that ends with a value has a first part that ended.
pub then-eq-ok :
    {S B : Type 0} (m : Action S ⊤) (k : Action S B) (s s' : S) {b : B}
    → (m >> k) s ≡ (ok b, s')
    → (t : S) × (m s ≡ (ok tt, t)) × (k t ≡ (ok b, s'))
then-eq-ok m k s s' h = elim (Outcome-cases (m s).0) [
  | inl (a, e) ↦ ((m s).1, ground (arith, e), ground (arith, e))
  | inr other ↦ ground (arith, other)
]

-- An action whose error is wrapped by its caller.
abbrev pub map_error : {S A : Type 0} → (Error → Error) → Action S A → Action S A
map_error f m s =
    let (r, t) = m s in
    elim r [
      | ok a ↦ (ok a, t)
      | err e ↦ (err (f e), t)
      | panics ↦ (panics, t)
      | runs_on ↦ (runs_on, t)
    ]

-- The same where the value is passed on.
pub bind-eq-ok :
    {S A B : Type 0} (m : Action S A) (k : A → Action S B) (s s' : S) {b : B}
    → (m >>= k) s ≡ (ok b, s')
    → (a : A) × (t : S) × (m s ≡ (ok a, t)) × (k a t ≡ (ok b, s'))
bind-eq-ok m k s s' h = elim (Outcome-cases (m s).0) [
  | inl (a, e) ↦ (a, (m s).1, ground (arith, e), ground (arith, e))
  | inr other ↦ ground (arith, other)
]

-- A sequence goes on inside its second part.
pub bind-into :
    {S A B C : Type 0} (m : Action S A) (k : A → Action S B) (l : B → Action S C)
    (n : A → Action S C)
    → ((a : A) (t : S) → (k a >>= l) t ≡ n a t)
    → (s : S) → ((m >>= k) >>= l) s ≡ (m >>= n) s
bind-into m k l n same s = elim (Outcome-cases (m s).0) [
  | inl (a, e) ↦ let same = same a (m s).1 in ground (arith, e, same)
  | inr other ↦ ground (arith, other)
]
