-- ===== src/Prediction/Amounts.antt =====
-- `bignumber.js` as packages/core/src/math/predict.ts relies on it, and the sums of amounts.
use stellar_agentic.Base.{
  ℕ, suc, ◌-◌, ◌/◌, ◌≤◌, ◌<◌, ◌≡◌, refl, ap, subst, true, List, [], ◌∷◌, length, ltb, drop,
  Bool-cases, inl, inr, ok, arith,
}
use stellar_agentic.Base.Int.{ℤ, pos, ◌+ℤ◌, ltb_ℤ, leb_ℤ}
use stellar_agentic.Base.Numbers.{Bytes}
use stellar_agentic.Prediction.{
  BigNumber, zero_text, bn, bn_again, add, add_live, sum_loop, sum_live_buckets,
}
use stellar_agentic.Prediction.Windows.{
  expired_count, expired_index, drop_past, drop_live, bucket_size_pos, live,
}

-- What `bignumber.js` documents of the decimals that are integers: they are finite, `0` is one,
-- addition and comparison are exact, and a printed number is read back.
pub record IsExact (lib : BigNumber) : Type 1 where
  pub Denotes : lib.Decimal → ℤ → Type 0
  pub finite : (x : lib.Decimal) (i : ℤ) → Denotes x i → lib.is_finite x ≡ true
  pub nothing : Denotes (lib.new zero_text) (pos 0)
  pub sums :
      (x y : lib.Decimal) (i j : ℤ) → Denotes x i → Denotes y j → Denotes (lib.plus x y) (i +ℤ j)
  pub greater :
      (x y : lib.Decimal) (i j : ℤ)
      → Denotes x i
      → Denotes y j
      → lib.is_greater_than x y ≡ ltb_ℤ j i
  pub at_most :
      (x y : lib.Decimal) (i j : ℤ)
      → Denotes x i
      → Denotes y j
      → lib.is_less_than_or_equal_to x y ≡ leb_ℤ i j
  pub printed : (x : lib.Decimal) (i : ℤ) → Denotes x i → Denotes (lib.new (lib.to_string x)) i

-- The sum of integers onto a first one.
pub sum_ℤ : ℤ → List ℤ → ℤ
sum_ℤ z [] = z
sum_ℤ z (v ∷ vs) = sum_ℤ (z +ℤ v) vs

module _ (lib : BigNumber) (exact : IsExact lib) where
  -- A text is that of an integer.
  abbrev pub IsAmount : Bytes → ℤ → Type 0
  IsAmount s i = exact.Denotes (lib.new s) i

  -- The texts are those of the integers, in order.
  abbrev pub AreAmounts : List Bytes → List ℤ → Type 0
  AreAmounts [] [] = Unit
  AreAmounts [] (v ∷ vs) = ⊥
  AreAmounts (s ∷ ss) [] = ⊥
  AreAmounts (s ∷ ss) (v ∷ vs) = IsAmount s v × AreAmounts ss vs

  pub bn-ok : (s : Bytes) (i : ℤ) → IsAmount s i → bn lib s ≡ ok (lib.new s)
  unfolding bn
  bn-ok s i d = rw (exact.finite (lib.new s) i d) refl

  pub add-ok :
      (x y : lib.Decimal) (i j : ℤ)
      → exact.Denotes x i
      → exact.Denotes y j
      → add lib x y ≡ ok (lib.plus x y)
  unfolding add bn_again
  add-ok x y i j d e = rw (exact.finite x i d, exact.finite y j e) refl

  sum_loop-drop :
      (bs : List Bytes) (vs : List ℤ) (i size start window now : ℕ) (total : lib.Decimal) (z : ℤ)
      → 0 < size
      → AreAmounts bs vs
      → exact.Denotes total z
      → (t : lib.Decimal) × (sum_loop lib bs i size start window now total ≡ ok t)
        × exact.Denotes t (sum_ℤ z (drop (expired_count start window size now - i) vs))
  unfolding sum_loop sum_ℤ add_live
  sum_loop-drop [] [] i size start window now total z s a d = (total, refl, d)
  sum_loop-drop [] (v ∷ vs) i size start window now total z s a d = absurd a
  sum_loop-drop (b ∷ bs) [] i size start window now total z s a d = absurd a
  sum_loop-drop (b ∷ bs) (v ∷ vs) i size start window now total z s a d =
      let k = expired_count start window size now in
      let known = expired_index start window size now i s in
      elim (Bool-cases (ltb i k)) [
        | inl e ↦
            rw (known, e, drop_past i k v vs e)
              (sum_loop-drop bs vs (suc i) size start window now total z s a.1 d)
        | inr e ↦
            let next = lib.plus total (lib.new b) in
            rw (known, e, drop_live i k v vs e, bn-ok b v a.0, add-ok total (lib.new b) z v d a.0)
              (sum_loop-drop bs vs (suc i) size start window now next (z +ℤ v) s a.1
                (exact.sums total (lib.new b) z v d a.0))
      ]

  AreAmounts-length : (bs : List Bytes) (vs : List ℤ) → AreAmounts bs vs → length bs ≡ length vs
  AreAmounts-length [] [] a = refl
  AreAmounts-length [] (v ∷ vs) a = absurd a
  AreAmounts-length (b ∷ bs) [] a = absurd a
  AreAmounts-length (b ∷ bs) (v ∷ vs) a = ap suc (AreAmounts-length bs vs a.1)

  -- The live spend is the sum of the amounts from the first live bucket on, which is found by one
  -- division, where the buckets are texts of integers and `bignumber.js` is exact on these, and
  -- where a window has a bucket and no more buckets than ledgers.
  pub sum_live_buckets-live :
      (bs : List Bytes) (vs : List ℤ) (start window now : ℕ)
      → AreAmounts bs vs
      → 0 < length vs
      → length vs ≤ window
      → (t : Bytes) × (sum_live_buckets lib bs start window now ≡ ok t)
        × IsAmount t (sum_ℤ (pos 0) (live vs start window now))
  unfolding sum_live_buckets
  sum_live_buckets-live bs vs start window now a some_bucket fits =
      let size = window / length vs in
      let k = expired_count start window size now in
      let (t, e, d) =
        sum_loop-drop bs vs 0 size start window now (lib.new zero_text) (pos 0)
          (bucket_size_pos window (length vs) some_bucket fits) a exact.nothing in
      let same : k - 0 ≡ k = omega arith in
      rw (AreAmounts-length bs vs a, bn-ok zero_text (pos 0) exact.nothing, e)
        (
          lib.to_string t,
          refl,
          exact.printed t _ (subst (λ j. exact.Denotes t (sum_ℤ (pos 0) (drop j vs))) same d),
        )
