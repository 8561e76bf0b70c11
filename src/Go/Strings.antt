-- ===== src/Go/Strings.antt =====
-- `strings.Contains` and `strings.Split` with a separator of one byte.
pub mod Laws
use mx_chain_simulator_go.Common.{
  ℕ, Bool, true, false, ◌&&◌, ◌||◌, List, [], ◌∷◌, ◌++◌, Bytes, ◌==◌, if◌then◌else◌,
}

unfoldable pub has_prefix : Bytes → Bytes → Bool
has_prefix s [] = true
has_prefix [] (_ ∷ _) = false
has_prefix (a ∷ s) (b ∷ t) = (a == b) && has_prefix s t

-- `strings.Contains(s, sub)`
unfoldable pub contains : Bytes → Bytes → Bool
unfolding has_prefix
contains [] sub = has_prefix [] sub
contains (c ∷ s) sub = has_prefix (c ∷ s) sub || contains s sub

-- Puts a byte in front of the first part.
abbrev pub onto_first : ℕ → List Bytes → List Bytes
onto_first c [] = (c ∷ []) ∷ []
onto_first c (p ∷ ps) = (c ∷ p) ∷ ps

-- `strings.Split(s, sep)`
unfoldable pub split : Bytes → ℕ → List Bytes
split [] sep = [] ∷ []
split (c ∷ s) sep = let rest = split s sep in if c == sep then [] ∷ rest else onto_first c rest
