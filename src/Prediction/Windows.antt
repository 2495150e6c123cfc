-- ===== src/Prediction/Windows.antt =====
-- The windows of packages/core/src/math/predict.ts: which buckets are live, and the sum of the
-- transaction counts.
use Prim.Native.Nat.{zero, suc}
use native.Mathlib.Nat.{le-div_iff_mul-le, div-mul-le_self}
use stellar_agentic.Base.{
  ℕ, ◌+◌, ◌-◌, ◌*◌, ◌/◌, ◌≤◌, ◌<◌, ◌≡◌, ◌↔◌, refl, ap, subst, sym, true, false, List, [], ◌∷◌,
  length, leb, ltb, drop, drop-zero, if◌then◌else◌, Bool-cases, inl, inr, arith,
}
use stellar_agentic.Prediction.{
  is_window_expired, ledgers_remaining_in_window, sum_tx_loop, sum_live_tx_buckets,
}

-- How many buckets, from the oldest on, have left the window.
pub expired_count : (start window size now : ℕ) → ℕ
expired_count start window size now =
    if leb (start + window) now then suc ((now - (start + window)) / size) else 0

-- A bucket is expired just where its index is below that number.
pub expired_index :
    (start window size now i : ℕ)
    → 0 < size
    → is_window_expired (start + i * size) window now ≡ ltb i (expired_count start window size now)
unfolding is_window_expired expired_count
expired_index start window size now i s = elim (Bool-cases (leb (start + window) now)) [
  | inl e ↦
      let iff = le-div_iff_mul-le {k = size} {x = i} {y = now - (start + window)} s in
      let f = iff.0 in let g = iff.1 in grind arith
  | inr e ↦ grind arith
]

module _ {ℓ} {A : Type ℓ} (i k : ℕ) (x : A) (xs : List A) where
  pub drop_past : ltb i k ≡ true → drop (k - i) (x ∷ xs) ≡ drop (k - suc i) xs
  drop_past e = let one_more : k - i ≡ suc (k - suc i) = ground arith in rw one_more refl

  pub drop_live : ltb i k ≡ false → drop (k - i) (x ∷ xs) ≡ x ∷ drop (k - suc i) xs
  drop_live e =
      let here : k - i ≡ 0 = ground arith in
      let beyond : k - suc i ≡ 0 = ground arith in
      rw (here, beyond) (ap (◌∷◌ x) (sym (drop-zero xs)))

-- The buckets of a window that are live: those behind the expired ones.
abbrev pub live {ℓ} : {A : Type ℓ} → List A → ℕ → ℕ → ℕ → List A
live bs start window now = drop (expired_count start window (window / length bs) now) bs

pub sum : List ℕ → ℕ
sum [] = 0
sum (n ∷ ns) = n + sum ns

sum_tx_loop-drop :
    (bs : List ℕ) (i size start window now total : ℕ)
    → 0 < size
    → sum_tx_loop bs i size start window now total
      ≡ total + sum (drop (expired_count start window size now - i) bs)
unfolding sum_tx_loop sum
sum_tx_loop-drop [] i size start window now total s = omega arith
sum_tx_loop-drop (b ∷ bs) i size start window now total s =
    let k = expired_count start window size now in
    let known = expired_index start window size now i s in
    elim (Bool-cases (ltb i k)) [
      | inl e ↦
          rw (known, e, drop_past i k b bs e)
            (sum_tx_loop-drop bs (suc i) size start window now total s)
      | inr e ↦
          rw (known, e, drop_live i k b bs e)
            (omega (arith, sum_tx_loop-drop bs (suc i) size start window now (total + b) s))
    ]

pub bucket_size_pos : (window n : ℕ) → 0 < n → n ≤ window → 0 < window / n
bucket_size_pos window n s h =
    let iff = le-div_iff_mul-le {k = n} {x = 1} {y = window} s in iff.1 (omega arith)

-- The live transaction count is the sum of the counts from the first live bucket on, which is
-- found by one division, where a window has a bucket and no more buckets than ledgers.
pub sum_live_tx_buckets-live :
    (bs : List ℕ) (start window now : ℕ)
    → 0 < length bs
    → length bs ≤ window
    → sum_live_tx_buckets bs start window now ≡ sum (live bs start window now)
unfolding sum_live_tx_buckets
sum_live_tx_buckets-live bs start window now some_bucket fits =
    let size = window / length bs in
    let k = expired_count start window size now in
    let whole_loop =
      sum_tx_loop-drop bs 0 size start window now 0
        (bucket_size_pos window (length bs) some_bucket fits) in
    let same : k - 0 ≡ k = omega arith in
    subst (λ j. sum_tx_loop bs 0 size start window now 0 ≡ sum (drop j bs)) same
      (omega (arith, whole_loop))

sum-drop_antitone : (j k : ℕ) (bs : List ℕ) → j ≤ k → sum (drop k bs) ≤ sum (drop j bs)
unfolding sum
sum-drop_antitone j k [] h = omega arith
sum-drop_antitone zero zero (b ∷ bs) h = omega arith
sum-drop_antitone zero (suc k) (b ∷ bs) h =
    let rest = sum-drop_antitone 0 k bs (omega arith) in
    let all = ap sum (drop-zero bs) in omega arith
sum-drop_antitone (suc j) zero (b ∷ bs) h = absurd (omega arith)
sum-drop_antitone (suc j) (suc k) (b ∷ bs) h = sum-drop_antitone j k bs (omega arith)

expired_count_mono :
    (start window size now later : ℕ)
    → 0 < size
    → now ≤ later
    → expired_count start window size now ≤ expired_count start window size later
unfolding expired_count
expired_count_mono start window size now later s h =
    let earlier = now - (start + window) in
    let beyond = later - (start + window) in
    let below = div-mul-le_self earlier size in
    let iff = le-div_iff_mul-le {k = size} {x = earlier / size} {y = beyond} s in
    let quotients : earlier / size ≤ beyond / size = iff.1 (omega arith) in ground arith

-- While nothing is paid, the live transaction count only falls: a later ledger sees at most the
-- count of an earlier one, where a window has a bucket and no more buckets than ledgers.
pub sum_live_tx_buckets_antitone :
    (bs : List ℕ) (start window now later : ℕ)
    → 0 < length bs
    → length bs ≤ window
    → now ≤ later
    → sum_live_tx_buckets bs start window later ≤ sum_live_tx_buckets bs start window now
sum_live_tx_buckets_antitone bs start window now later some_bucket fits h =
    let size = window / length bs in
    rw
      (
        sum_live_tx_buckets-live bs start window now some_bucket fits,
        sum_live_tx_buckets-live bs start window later some_bucket fits,
      )
      (sum-drop_antitone _ _ bs (
        expired_count_mono start window size now later
          (bucket_size_pos window (length bs) some_bucket fits) h))

-- The ledgers that remain in a window are none just where it has expired.
pub ledgers_remaining_iff :
    (start window now : ℕ)
    → (ledgers_remaining_in_window start window now ≡ 0)
      ↔ (is_window_expired start window now ≡ true)
unfolding ledgers_remaining_in_window is_window_expired
ledgers_remaining_iff start window now = (λ h. ground arith, λ h. ground arith)
