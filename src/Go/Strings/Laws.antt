-- ===== src/Go/Strings/Laws.antt =====
-- The parts of a split.
use mx_chain_simulator_go.Common.{
  ℕ, ◌≡◌, ◌≢◌, ◌⊎◌, inl, inr, refl, List, [], ◌∷◌, ◌++◌, arith, Bytes, All, ◌==◌, Bool-cases,
}
use mx_chain_simulator_go.Go.Strings.{split}

-- No byte of the text is the separator.
abbrev pub Lacks : ℕ → Bytes → Type 0
Lacks sep = All (λ c. c ≢ sep)

pub split_of_Lacks : (s : Bytes) (sep : ℕ) → Lacks sep s → split s sep ≡ s ∷ []
unfolding split
split_of_Lacks [] sep _ = refl
split_of_Lacks (c ∷ s) sep (hc, hs) = rw (split_of_Lacks s sep hs) (ground arith)

-- Two texts that lack the separator are the two parts of their join.
pub split_pair :
    (s t : Bytes) (sep : ℕ) → Lacks sep s → Lacks sep t → split (s ++ sep ∷ t) sep ≡ s ∷ t ∷ []
unfolding split
split_pair [] t sep _ ht = rw (split_of_Lacks t sep ht) (ground arith)
split_pair (c ∷ s) t sep (hc, hs) ht = rw (split_pair s t sep hs ht) (ground arith)

-- The last part of a split is what stands behind the last separator.
pub split_last :
    (s t : Bytes) (sep : ℕ)
    → Lacks sep t
    → (first : Bytes) × (middle : List Bytes) × (split (s ++ sep ∷ t) sep
        ≡ first ∷ (middle ++ t ∷ []))
unfolding split
split_last [] t sep ht = ([], [], rw (split_of_Lacks t sep ht) (ground arith))
split_last (c ∷ s) t sep ht =
    let (first, middle, e) = split_last s t sep ht in
    elim (Bool-cases (c == sep)) [
      | inl same ↦ ([], first ∷ middle, rw e (ground (arith, same)))
      | inr other ↦ (c ∷ first, middle, rw e (ground (arith, other)))
    ]

-- A text lacks the separator, or there is a last one in it.
pub last_separator :
    (v : Bytes) (sep : ℕ)
    → Lacks sep v ⊎ ((s : Bytes) × (t : Bytes) × (v ≡ s ++ sep ∷ t) × Lacks sep t)
last_separator [] sep = inl tt
last_separator (c ∷ v) sep = elim (last_separator v sep) [
  | inr (s, t, e, ht) ↦ inr (c ∷ s, t, rw e refl, ht)
  | inl hv ↦ elim (Bool-cases (c == sep)) [
    | inl same ↦ inr ([], v, ground (arith, same), hv)
    | inr other ↦ inl (ground (arith, other), hv)
  ]
]

-- A part with no separator comes off the front of a split.
pub split_first : (s t : Bytes) (sep : ℕ) → Lacks sep s → split (s ++ sep ∷ t) sep ≡ s ∷ split t sep
unfolding split
split_first [] t sep _ = ground arith
split_first (c ∷ s) t sep (hc, hs) = rw (split_first s t sep hs) (ground arith)

-- `strings.Join(first ∷ parts, sep)`
abbrev pub join : ℕ → Bytes → List Bytes → Bytes
join sep first [] = first
join sep first (part ∷ parts) = first ++ sep ∷ join sep part parts

pub split-join :
    (sep : ℕ) (first : Bytes) (parts : List Bytes)
    → Lacks sep first
    → All (Lacks sep) parts
    → split (join sep first parts) sep ≡ first ∷ parts
split-join sep first [] h _ = split_of_Lacks first sep h
split-join sep first (part ∷ parts) h (hp, hps) =
    rw (split_first first (join sep part parts) sep h, split-join sep part parts hp hps) refl
