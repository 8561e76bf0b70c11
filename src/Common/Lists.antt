-- ===== src/Common/Lists.antt =====
-- Lists over the native numbers, predicates on them, and Go's strings as lists of bytes.
use Prim.Native.Nat.{ℕ, zero, suc, ◌<◌}
use Prim.Native.Char.{code}
use Prim.Native.String.{String}
use mathlib.Core.Path.{◌≡◌, refl}
use mathlib.Core.Bool.{Bool, true, false, ◌&&◌}
use mathlib.Core.List.{List, [], ◌∷◌, ◌++◌}
use native.Mathlib.Omega.{arith}
use mx_chain_simulator_go.Common.Tests.{◌==◌}

module _ {ℓ} {A : Type ℓ} where
  abbrev pub length : List A → ℕ
  length [] = 0
  length (x ∷ xs) = suc (length xs)

module _ {ℓ κ} {A : Type ℓ} (P : A → Type κ) where
  abbrev pub All : List A → Type κ
  All [] = Unit
  All (x ∷ xs) = P x × All xs

  pub All-append : (xs ys : List A) → All xs → All ys → All (xs ++ ys)
  All-append [] ys _ hy = hy
  All-append (x ∷ xs) ys (px, hx) hy = (px, All-append xs ys hx hy)

-- A Go string: its bytes.
abbrev pub Bytes : Type 0
Bytes = List ℕ

-- The code points of a literal; these are its bytes, since the literals are ASCII.
abbrev pub codes : String → Bytes
codes String.[] = []
codes (String.◌∷◌ c s) = code c ∷ codes s

abbrev pub bytes_eq : Bytes → Bytes → Bool
bytes_eq [] [] = true
bytes_eq [] (_ ∷ _) = false
bytes_eq (_ ∷ _) [] = false
bytes_eq (a ∷ s) (b ∷ t) = (a == b) && bytes_eq s t

abbrev pub is_empty : Bytes → Bool
is_empty [] = true
is_empty (_ ∷ _) = false

-- Every byte is below 256.
abbrev pub AreBytes : Bytes → Type 0
AreBytes = All (λ b. b < 256)

pub bytes_eq_refl : (s : Bytes) → bytes_eq s s ≡ true
bytes_eq_refl [] = refl
bytes_eq_refl (a ∷ s) = ground (arith, bytes_eq_refl s)

pub bytes_eq→eq : (s t : Bytes) → bytes_eq s t ≡ true → s ≡ t
bytes_eq→eq [] [] h = refl
bytes_eq→eq [] (_ ∷ _) h = cc
bytes_eq→eq (_ ∷ _) [] h = cc
bytes_eq→eq (a ∷ s) (b ∷ t) h = ground (arith, bytes_eq→eq s t)

-- The state after a number of rounds.
abbrev pub iterate {ℓ} : {S : Type ℓ} → (S → S) → ℕ → S → S
iterate f zero s = s
iterate f (suc n) s = iterate f n (f s)
