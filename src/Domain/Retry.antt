-- ===== src/Domain/Retry.antt =====
-- src/trader/domain/retry.py: the delays before the retries of a call.
use kyo_trading_tool.Prelude.{
  ℕ, zero, suc, ◌+◌, ◌-◌, ◌^◌, ◌<◌, ◌≡◌, inl, inr, refl, ap, arith, true, Bool-cases, Option, some,
  none, List, [], ◌∷◌, length, if◌then◌else◌, pos, ◌*ℤ◌, ◌⊎◌,
}
use kyo_trading_tool.Domain.Decimal.{Decimal, of_ℕ, mul, mul_below, leb_dec, ltb_dec}

pub record RetryPolicy : Type 0 where
  pub max_attempts : ℕ
  pub base_delay_s : Decimal
  pub max_delay_s : Decimal

-- `min(a, b)`
unfoldable pub min_dec : Decimal → Decimal → Decimal
min_dec a b = if ltb_dec b a then b else a

-- the delay before the retry `attempt_index`
unfoldable pub delay_at : RetryPolicy → ℕ → Decimal
delay_at policy attempt_index =
    min_dec (mul policy.base_delay_s (of_ℕ (2 ^ attempt_index))) policy.max_delay_s

-- the loop over the `n` indices from `i` on
unfoldable pub delays_from : RetryPolicy → ℕ → ℕ → List Decimal
delays_from policy i zero = []
delays_from policy i (suc n) = delay_at policy i ∷ delays_from policy (i + 1) n

unfoldable pub backoff_delays : RetryPolicy → List Decimal
backoff_delays policy = delays_from policy 0 (policy.max_attempts - 1)

-- the element at an index
abbrev pub element : {A : Type 0} → ℕ → List A → Option A
element i [] = none
element zero (x ∷ xs) = some x
element (suc i) (x ∷ xs) = element i xs

-- the base delay, doubled `k` times
abbrev pub doubled : RetryPolicy → ℕ → Decimal
doubled policy k = record {
  num = policy.base_delay_s.num *ℤ pos (2 ^ k);
  below = policy.base_delay_s.below;
}

-- the base delay doubled `k` times, or the maximum where that is more
abbrev pub Clipped : RetryPolicy → ℕ → Decimal → Type 0
Clipped policy k d =
    ((leb_dec (doubled policy k) policy.max_delay_s ≡ true) × (d ≡ doubled policy k))
    ⊎ ((ltb_dec policy.max_delay_s (doubled policy k) ≡ true) × (d ≡ policy.max_delay_s))

mul_pow-doubled :
    (policy : RetryPolicy) (k : ℕ) → mul policy.base_delay_s (of_ℕ (2 ^ k)) ≡ doubled policy k
unfolding mul
mul_pow-doubled policy k =
    let same : mul_below policy.base_delay_s.below 0 ≡ policy.base_delay_s.below = omega arith in
    ap (λ (b : ℕ). record { num = policy.base_delay_s.num *ℤ pos (2 ^ k); below = b }) same

delay_at-Clipped : (policy : RetryPolicy) (k : ℕ) → Clipped policy k (delay_at policy k)
unfolding delay_at min_dec
delay_at-Clipped policy k =
    let m = policy.max_delay_s in
    elim (Bool-cases (ltb_dec m (doubled policy k))) [
      | inl e ↦ inr (e, rw (mul_pow-doubled policy k, e) refl)
      | inr e ↦ inl (ground (arith, e), rw (mul_pow-doubled policy k, e) refl)
    ]

delays_from-length : (policy : RetryPolicy) (i n : ℕ) → length (delays_from policy i n) ≡ n
unfolding delays_from
delays_from-length policy i zero = refl
delays_from-length policy i (suc n) = omega (arith, delays_from-length policy (i + 1) n)

delays_from-element :
    (policy : RetryPolicy) (i n k j : ℕ)
    → j ≡ i + k
    → k < n
    → element k (delays_from policy i n) ≡ some (delay_at policy j)
unfolding delays_from
delays_from-element policy i zero k j e h = absurd (omega arith)
delays_from-element policy i (suc n) zero j e h =
    let same : i ≡ j = omega arith in ap (λ (x : ℕ). some (delay_at policy x)) same
delays_from-element policy i (suc n) (suc k) j e h =
    delays_from-element policy (i + 1) n k j (omega arith) (omega arith)

-- There is one delay for each retry, one fewer than the attempts; the delay before the retry `k`,
-- counted from 0, is the base delay times 2 ^ k where that is at most the maximum, and the maximum
-- where it is more.
pub backoff_delays-at :
    (policy : RetryPolicy)
    → (length (backoff_delays policy) ≡ policy.max_attempts - 1)
      × ((k : ℕ)
          → k < policy.max_attempts - 1
          → (d : Decimal) × (element k (backoff_delays policy) ≡ some d) × Clipped policy k d)
unfolding backoff_delays
backoff_delays-at policy = (
  delays_from-length policy 0 (policy.max_attempts - 1),
  λ k h. (
    delay_at policy k,
    delays_from-element policy 0 (policy.max_attempts - 1) k k (omega arith) h,
    delay_at-Clipped policy k,
  ),
)
