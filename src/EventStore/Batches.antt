-- ===== src/EventStore/Batches.antt =====
-- `iterateLedgerEntries` of packages/indexer/src/store.ts: batches give the entries of the query.
use stellar_agentic.Base.{
  ℕ, zero, suc, ◌+◌, ◌≤◌, ◌<◌, ◌≡◌, refl, sym, ap, ◌∙◌, Bool, false, not, ◌||◌, List, [], ◌∷◌, ◌++◌,
  keep, drop, drop-zero, first_of, length, length-append, ltb, ltb→lt, lt→ltb, Bool-cases, inl, inr,
  ok, arith,
}
use stellar_agentic.Base.Int.{pos}
use stellar_agentic.Base.Numbers.{whole, is_safe_integer, ltb_number}
use stellar_agentic.EventStore.Queries.{
  LedgerQuery, matches_query, ledger_entries, batch_query, iterate_loop, iterate_ledger_entries,
}
use stellar_agentic.EventStore.{Store, slice}
use stellar_agentic.Ledger.{LedgerEntry}

length-drop :
    {A : Type 0} (o : ℕ) (xs : List A) → o ≤ length xs → o + length (drop o xs) ≡ length xs
length-drop zero [] h = omega arith
length-drop zero (x ∷ xs) h = omega arith
length-drop (suc o) [] h = absurd (omega (arith, h))
length-drop (suc o) (x ∷ xs) h = omega (arith, length-drop o xs (omega (arith, h)))

pub length-keep : {A : Type 0} (f : A → Bool) (xs : List A) → length (keep f xs) ≤ length xs
length-keep f [] = omega arith
length-keep f (x ∷ xs) = ground (arith, length-keep f xs)

suc_add : (a b : ℕ) → suc a + b ≡ suc (a + b)
suc_add a b = omega arith

module _ {ℓ} {A : Type ℓ} where
  first_of-drop : (n : ℕ) (xs : List A) → first_of n xs ++ drop n xs ≡ xs
  first_of-drop zero [] = refl
  first_of-drop zero (x ∷ xs) = refl
  first_of-drop (suc n) [] = refl
  first_of-drop (suc n) (x ∷ xs) = ap (◌∷◌ x) (first_of-drop n xs)

  drop-add : (a b : ℕ) (xs : List A) → drop (a + b) xs ≡ drop b (drop a xs)
  drop-add a b [] = refl
  drop-add zero b (x ∷ xs) = ap (λ n. drop n (x ∷ xs)) (omega arith)
  drop-add (suc a) b (x ∷ xs) = ap (λ n. drop n (x ∷ xs)) (suc_add a b) ∙ drop-add a b xs

  short : (n : ℕ) (xs : List A) → length (first_of n xs) < n → first_of n xs ≡ xs
  short zero xs h = absurd (omega (arith, h))
  short (suc n) [] h = refl
  short (suc n) (x ∷ xs) h = ap (◌∷◌ x) (short n xs (omega (arith, h)))

  full : (n : ℕ) (xs : List A) → ¬ (length (first_of n xs) < n) → length (first_of n xs) ≡ n
  full zero xs h = refl
  full (suc n) [] h = absurd (h (omega arith))
  full (suc n) (x ∷ xs) h = ap suc (full n xs λ k. h (omega (arith, k)))

module _ (s : Store) (q : LedgerQuery) (size : ℕ) (positive : 1 ≤ size) (bounded : size ≤ 100000)
    (safe : length (keep (matches_query q) s.cached_entries) ≤ 9007199254740991) where
  abbrev found : List LedgerEntry
  found = keep (matches_query q) s.cached_entries

  -- The guards let a batch pass.
  limit_ok :
      (not (is_safe_integer (whole (pos size)))
        || ltb_number (whole (pos size)) (whole (pos 0))
        || ltb_number (whole (pos 100000)) (whole (pos size)))
      ≡ false
  limit_ok = ground arith

  offset_ok :
      (o : ℕ)
      → o ≤ 9007199254740991
      → (not (is_safe_integer (whole (pos o))) || ltb_number (whole (pos o)) (whole (pos 0)))
        ≡ false
  offset_ok o h = ground arith

  batch :
      (o : ℕ)
      → o ≤ 9007199254740991
      → ledger_entries s (batch_query q size o) ≡ ok (slice o size found)
  unfolding ledger_entries matches_query
  batch o h = rw (limit_ok, offset_ok o h) refl

  -- What is left at an offset, in one batch and what comes behind it.
  rest_length :
      (o : ℕ) → length (slice o size found) + length (drop (o + size) found) ≡ length (drop o found)
  rest_length o =
      sym (length-append (slice o size found) (drop (o + size) found))
      ∙ ap (λ r. length (slice o size found ++ r)) (drop-add o size found)
      ∙ ap length (first_of-drop size (drop o found))

  loop :
      (fuel o : ℕ)
      → length (drop o found) < fuel
      → o ≤ length found
      → iterate_loop s q size fuel o ≡ ok (drop o found)
  unfolding iterate_loop
  loop zero o h b = absurd (omega (arith, h))
  loop (suc fuel) o h b =
      let got = slice o size found in
      elim (Bool-cases (ltb (length got) size)) [
        | inl e ↦
            rw (batch o (omega (arith, b, safe)), e)
              (ap ok (short size (drop o found) (ltb→lt (length got) size e)))
        | inr e ↦
            let n = full size (drop o found) (λ k. cc (lt→ltb (length got) size k, e)) in
            let next =
              loop fuel (o + size) (omega (arith, h, rest_length o, n, positive))
                (omega (arith, rest_length o, n, length-drop o found b)) in
            rw (batch o (omega (arith, b, safe)), e, n, next)
              (ap ok (ap (◌++◌ got) (drop-add o size found) ∙ first_of-drop size (drop o found)))
      ]

  size_ok :
      (not (is_safe_integer (whole (pos size)))
        || ltb_number (whole (pos size)) (whole (pos 1))
        || ltb_number (whole (pos 100000)) (whole (pos size)))
      ≡ false
  size_ok = ground arith

  -- The entries that a query finds come out of the batches, all of them, in their order and each
  -- once, whatever the size of the batches is; the loop ends.
  pub iterate_ledger_entries_complete :
      iterate_ledger_entries s q (whole (pos size)) ≡ ok (keep (matches_query q) s.cached_entries)
  unfolding iterate_ledger_entries
  iterate_ledger_entries_complete =
      let short_enough = length-keep (matches_query q) s.cached_entries in
      rw size_ok (
        loop (suc (length s.cached_entries)) 0
          (omega (arith, short_enough, ap length (drop-zero found))) (omega arith)
        ∙ ap ok (drop-zero found))
