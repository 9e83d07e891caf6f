-- ===== src/Domain/Decimal/Rounding.antt =====
-- ROUND_HALF_EVEN: it is exact on whole numbers, off by half a unit at most, and monotone.
use native.Mathlib.Nat.{div-add-mod}
use kyo_trading_tool.Prelude.{
  ℕ, zero, suc, ◌+◌, ◌*◌, ◌/◌, ◌%◌, ◌≤◌, ◌<◌, ◌≡◌, ap, refl, arith, ◌⊎◌, inl, inr, dec_lt, ℤ, pos,
  negsuc, neg, neg_parts, ◌∙◌, ◌*ℤ◌, ◌≤ℤ◌,
}
use kyo_trading_tool.Domain.Decimal.{
  Decimal, den, half_even_of, half_even, round_half_even, quantize,
}

-- Rounding goes down where the rest is at most half a unit, or up where it is at least half.
half_even_of-cases :
    (q r d : ℕ)
    → ((half_even_of q r d ≡ q) × (2 * r ≤ d)) ⊎ ((half_even_of q r d ≡ q + 1) × (d ≤ 2 * r))
unfolding half_even_of
half_even_of-cases q r d = ground arith

-- The rounded value is at most half a unit above and half a unit below the fraction.
pub half_even_near :
    (n k : ℕ)
    → (2 * (half_even n (suc k) * suc k) ≤ 2 * n + suc k)
      × (2 * n ≤ 2 * (half_even n (suc k) * suc k) + suc k)
unfolding half_even
half_even_near n k = elim (half_even_of-cases (n / suc k) (n % suc k) (suc k)) [
  | inl (e, h) ↦ rw e (omega (arith, div-add-mod n (suc k)))
  | inr (e, h) ↦ rw e (omega (arith, div-add-mod n (suc k)))
]

lt-mul_suc : (a b k : ℕ) → a < b → a * suc k + suc k ≤ b * suc k
lt-mul_suc a b k h = grind arith

-- A product that is short of the next multiple bounds the factor.
pub le_of_mul_lt : (a b k : ℕ) → a * suc k < b * suc k + suc k → a ≤ b
le_of_mul_lt a b k h = elim (dec_lt b a) [
  | yes p ↦ absurd (omega (arith, lt-mul_suc b a k p, lt-mul_suc (b + 1) a k))
  | no p ↦ omega arith
]

pub half_even-mul : (n k : ℕ) → half_even (n * suc k) (suc k) ≡ n
half_even-mul n k =
    let near = half_even_near (n * suc k) k in
    let above = le_of_mul_lt (half_even (n * suc k) (suc k)) n k (omega arith) in
    let under = le_of_mul_lt n (half_even (n * suc k) (suc k)) k (omega arith) in omega arith

pub half_even_mono : (n m k : ℕ) → n ≤ m → half_even n (suc k) ≤ half_even m (suc k)
half_even_mono n m k h = elim (dec_lt n m) [
  | yes p ↦
      le_of_mul_lt (half_even n (suc k)) (half_even m (suc k)) k
        (omega (arith, half_even_near n k, half_even_near m k))
  | no p ↦ let e : n ≡ m = omega arith in rw e (omega arith)
]

round_half_even-neg : (n k : ℕ) → round_half_even (neg n) (suc k) ≡ neg (half_even n (suc k))
unfolding round_half_even
round_half_even-neg zero k =
    let e : half_even 0 (suc k) ≡ 0 =
      omega (arith, half_even_near 0 k, half_even_mono 0 (0 * suc k) k, half_even-mul 0 k) in
    rw e
round_half_even-neg (suc n) k = refl

-- Rounding an integer fraction: the same three facts, with signs.
pub round_half_even-mul : (z : ℤ) (k : ℕ) → round_half_even (z *ℤ pos (suc k)) (suc k) ≡ z
unfolding round_half_even
round_half_even-mul (pos n) k = ap pos (half_even-mul n k)
round_half_even-mul (negsuc n) k =
    round_half_even-neg (suc n * suc k) k ∙ ap neg (half_even-mul (suc n) k)

pub round_half_even_mono :
    (a b : ℤ) (k : ℕ) → a ≤ℤ b → round_half_even a (suc k) ≤ℤ round_half_even b (suc k)
unfolding round_half_even
round_half_even_mono (pos a) (pos b) k h = omega (arith, half_even_mono a b k)
round_half_even_mono (pos a) (negsuc b) k h = absurd (omega arith)
round_half_even_mono (negsuc a) (pos b) k h = omega (arith, neg_parts (half_even (suc a) (suc k)))
round_half_even_mono (negsuc a) (negsuc b) k h = omega (
  arith,
  neg_parts (half_even (suc a) (suc k)),
  neg_parts (half_even (suc b) (suc k)),
  half_even_mono (suc b) (suc a) k,
)

-- A fraction that is a whole number of units is quantized to that number.
pub quantize_exact :
    (units : ℕ) (d : Decimal) (z : ℤ) → d.num *ℤ pos units ≡ z *ℤ pos (den d) → quantize units d ≡ z
unfolding quantize
quantize_exact units d z h = ap (λ n. round_half_even n (den d)) h ∙ round_half_even-mul z d.below

-- Quantizing stays on the same side of every whole number of units.
pub quantize_le :
    (units : ℕ) (d : Decimal) (z : ℤ)
    → d.num *ℤ pos units ≤ℤ z *ℤ pos (den d)
    → quantize units d ≤ℤ z
unfolding quantize
quantize_le units d z h =
    rw round_half_even-mul at
      (round_half_even_mono (d.num *ℤ pos units) (z *ℤ pos (den d)) d.below h)

pub quantize_ge :
    (units : ℕ) (d : Decimal) (z : ℤ)
    → z *ℤ pos (den d) ≤ℤ d.num *ℤ pos units
    → z ≤ℤ quantize units d
unfolding quantize
quantize_ge units d z h =
    rw round_half_even-mul at
      (round_half_even_mono (z *ℤ pos (den d)) (d.num *ℤ pos units) d.below h)
