-- ===== src/Go/Strconv/Laws.antt =====
-- Printing a number and reading it back.
use mx_chain_simulator_go.Common.{
  ℕ, zero, suc, ◌+◌, ◌/◌, ◌%◌, ◌<◌, ◌≡◌, ◌≢◌, refl, true, false, is_empty, inl, inr, some, [], ◌∷◌,
  ◌++◌, append-nil, append_assoc, arith, Bytes, All, All-append, Bool-cases, ltb, if◌then◌else◌,
}
use mathlib.Core.List.{concat-ne-nil}
use mx_chain_simulator_go.Common.Int.{ℤ, pos, negsuc, IsInt64}
use mx_chain_simulator_go.Go.Strconv.{
  digits, format_uint, itoa, is_digit, scan, magnitude, as_positive, as_negative, atoi,
}

abbrev pub AreDigits : Bytes → Type 0
AreDigits = All (λ c. is_digit c ≡ true)

digits_step :
    (fuel n : ℕ)
    → digits (suc fuel) n
      ≡ (if ltb n 10 then (b'0' + n) ∷ [] else digits fuel (n / 10) ++ (b'0' + n % 10) ∷ [])
unfolding digits
digits_step fuel n = ground arith

digits-AreDigits : (fuel n : ℕ) → AreDigits (digits fuel n)
digits-AreDigits zero n = unfold digits in tt
digits-AreDigits (suc fuel) n = elim (Bool-cases (ltb n 10)) [
  | inl small ↦ rw (digits_step, small) (ground arith, tt)
  | inr large ↦
      rw (digits_step, large) (All-append _ _ _ (digits-AreDigits fuel (n / 10)) (ground arith, tt))
]

scan-digits : (fuel n : ℕ) (rest : Bytes) → n < fuel → scan (digits fuel n ++ rest) 0 ≡ scan rest n
scan-digits zero n rest h = elim h [ ]
scan-digits (suc fuel) n rest h = elim (Bool-cases (ltb n 10)) [
  | inl small ↦ rw (digits_step, small) (unfold scan in ground arith)
  | inr large ↦
      rw (digits_step, large, append_assoc, scan-digits fuel (n / 10) _ (ground arith))
        (unfold scan in ground arith)
]

digits-ne-nil : (fuel n : ℕ) → digits (suc fuel) n ≢ []
digits-ne-nil fuel n =
    rw digits_step (ground (arith, concat-ne-nil (b'0' + n % 10) (digits fuel (n / 10))))

-- Digits carry no sign, so Atoi reads them as they are.
atoi_of_digits : (s : Bytes) → s ≢ [] → AreDigits s → atoi s ≡ as_positive (scan s 0)
unfolding atoi magnitude
atoi_of_digits [] h _ = absurd (h refl)
atoi_of_digits (c ∷ s) _ (hc, _) = ground arith

magnitude_of_ne_nil : (s : Bytes) → s ≢ [] → magnitude s ≡ scan s 0
unfolding magnitude
magnitude_of_ne_nil [] h = absurd (h refl)
magnitude_of_ne_nil (c ∷ s) _ = refl

scan-format_uint : (n : ℕ) → scan (format_uint n) 0 ≡ some n
unfolding format_uint scan
scan-format_uint n = rw (← append-nil (digits (suc n) n), scan-digits (suc n) n [] (omega arith))

pub format_uint-AreDigits : (n : ℕ) → AreDigits (format_uint n)
unfolding format_uint
format_uint-AreDigits n = digits-AreDigits (suc n) n

format_uint-ne-nil : (n : ℕ) → format_uint n ≢ []
unfolding format_uint
format_uint-ne-nil n = digits-ne-nil n n

atoi-neg : (s : Bytes) → atoi (b'-' ∷ s) ≡ as_negative (magnitude s)
unfolding atoi
atoi-neg s = refl

-- Every 64-bit number is read back from its decimal print.
pub atoi-itoa : (z : ℤ) → IsInt64 z → atoi (itoa z) ≡ some z
unfolding itoa
atoi-itoa (pos n) h =
    rw (atoi_of_digits _ (format_uint-ne-nil n) (format_uint-AreDigits n), scan-format_uint)
      (ground arith)
atoi-itoa (negsuc n) h =
    rw (atoi-neg, magnitude_of_ne_nil _ (format_uint-ne-nil (suc n)), scan-format_uint)
      (ground arith)

AreDigits-no_colon : (s : Bytes) → AreDigits s → All (λ c. c ≢ b':') s
AreDigits-no_colon [] _ = tt
AreDigits-no_colon (c ∷ s) (hc, hs) = (ground arith, AreDigits-no_colon s hs)

-- A printed number holds no colon.
pub itoa-no_colon : (z : ℤ) → All (λ c. c ≢ b':') (itoa z)
unfolding itoa
itoa-no_colon (pos n) = AreDigits-no_colon (format_uint n) (format_uint-AreDigits n)
itoa-no_colon (negsuc n) =
    (ground arith, AreDigits-no_colon (format_uint (suc n)) (format_uint-AreDigits (suc n)))

-- A printed number is not the empty text.
pub is_empty-itoa : (z : ℤ) → is_empty (itoa z) ≡ false
unfolding itoa
is_empty-itoa (pos n) = ground (arith, format_uint-ne-nil n)
is_empty-itoa (negsuc n) = refl
