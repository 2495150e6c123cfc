-- ===== src/SubmissionQueue/Runs.antt =====
-- The calls of `#run` in flight, of packages/core/src/fleet/submissionQueue.ts, and their keys.
use stellar_agentic.Base.{
  ℕ, suc, ◌≡◌, refl, ap, subst, ◌≢◌, true, false, none, some, List, [], ◌∷◌, All, length,
  Bool-cases, inl, inr, ◌==◌, arith,
}
use stellar_agentic.SubmissionQueue.{
  OrderingKey, Run, Phase, has, delete, delete_key, find_run, set_phase, remove_run,
}
use stellar_agentic.SubmissionQueue.Schedule.{cons_key, run_keys, Distinct, PhaseOk}

module _ (p : ℕ) where
  pub length-set_phase : (f : Phase) (rs : List Run) → length (set_phase p f rs) ≡ length rs
  unfolding set_phase
  length-set_phase f [] = refl
  length-set_phase f (r ∷ rs) = ground (arith, length-set_phase f rs)

  pub run_keys-set_phase : (f : Phase) (rs : List Run) → run_keys (set_phase p f rs) ≡ run_keys rs
  unfolding set_phase
  run_keys-set_phase f [] = refl
  run_keys-set_phase f (r ∷ rs) = elim (Bool-cases (r.item.promise == p)) [
    | inl e ↦ rw e refl
    | inr e ↦ rw e (ap (cons_key r.item.ordering_key) (run_keys-set_phase f rs))
  ]

  pub set_phase-PhaseOk :
      (bound : ℕ) (f : Phase) (rs : List Run)
      → PhaseOk bound f
      → All (λ r. PhaseOk bound r.phase) rs
      → All (λ r. PhaseOk bound r.phase) (set_phase p f rs)
  unfolding set_phase
  set_phase-PhaseOk bound f [] ok h = tt
  set_phase-PhaseOk bound f (r ∷ rs) ok h = elim (Bool-cases (r.item.promise == p)) [
    | inl e ↦ rw e (ok, h.1)
    | inr e ↦ rw e (h.0, set_phase-PhaseOk bound f rs ok h.1)
  ]

  pub find_run-PhaseOk :
      (bound : ℕ) (rs : List Run) (r : Run)
      → find_run p rs ≡ some r
      → All (λ x. PhaseOk bound x.phase) rs
      → PhaseOk bound r.phase
  unfolding find_run
  find_run-PhaseOk bound [] r e h = cc
  find_run-PhaseOk bound (x ∷ xs) r e h = elim (Bool-cases (x.item.promise == p)) [
    | inl hit ↦ subst (λ z. PhaseOk bound z.phase) (let same : x ≡ r = ground arith in same) h.0
    | inr miss ↦ find_run-PhaseOk bound xs r (ground arith) h.1
  ]

  pub find_run-promise : (rs : List Run) (r : Run) → find_run p rs ≡ some r → r.item.promise ≡ p
  unfolding find_run
  find_run-promise [] r e = cc
  find_run-promise (x ∷ xs) r e = ground (arith, find_run-promise xs r)

  pub length-remove_run :
      (rs : List Run) (r : Run)
      → find_run p rs ≡ some r
      → length rs ≡ suc (length (remove_run p rs))
  unfolding find_run remove_run
  length-remove_run [] r e = cc
  length-remove_run (x ∷ xs) r e = ground (arith, length-remove_run xs r)

  pub remove_run-PhaseOk :
      (bound : ℕ) (rs : List Run)
      → All (λ r. PhaseOk bound r.phase) rs
      → All (λ r. PhaseOk bound r.phase) (remove_run p rs)
  unfolding remove_run
  remove_run-PhaseOk bound [] h = tt
  remove_run-PhaseOk bound (r ∷ rs) h = elim (Bool-cases (r.item.promise == p)) [
    | inl e ↦ rw e h.1
    | inr e ↦ rw e (h.0, remove_run-PhaseOk bound rs h.1)
  ]

  has-find_run :
      (rs : List Run) (r : Run) (k : ℕ)
      → find_run p rs ≡ some r
      → r.item.ordering_key ≡ some k
      → has k (run_keys rs) ≡ true
  unfolding find_run
  has-find_run [] r k e f = cc
  has-find_run (x ∷ xs) r k e f = ground (arith, has-find_run xs r k)

delete_absent : (k : ℕ) (ks : List ℕ) → has k ks ≡ false → delete k ks ≡ ks
delete_absent k [] h = refl
delete_absent k (j ∷ js) h = ground (arith, delete_absent k js)

has-delete : (j k : ℕ) (ks : List ℕ) → has j ks ≡ false → has j (delete k ks) ≡ false
has-delete j k [] h = refl
has-delete j k (i ∷ is) h = ground (arith, has-delete j k is)

delete-Distinct : (k : ℕ) (ks : List ℕ) → Distinct ks → Distinct (delete k ks)
delete-Distinct k [] h = tt
delete-Distinct k (j ∷ js) h = ground (arith, delete-Distinct k js, has-delete j k js)

j≢k : (j k : ℕ) (ks : List ℕ) → has j ks ≡ false → has k ks ≡ true → j ≢ k
j≢k j k ks a b e = cc (subst (λ z. has z ks ≡ false) e a)

delete_own :
    (key : OrderingKey) (ks : List ℕ)
    → Distinct (cons_key key ks)
    → delete_key key (cons_key key ks) ≡ ks
delete_own none ks d = refl
delete_own (some k) ks d = ground (arith, delete_absent k ks)

delete_other :
    (kept key : OrderingKey) (ks rest : List ℕ)
    → Distinct (cons_key kept ks)
    → ((k : ℕ) → key ≡ some k → has k ks ≡ true)
    → delete_key key ks ≡ rest
    → delete_key key (cons_key kept ks) ≡ cons_key kept rest
delete_other none key ks rest d h e = e
delete_other (some j) none ks rest d h e = ap (◌∷◌ j) e
delete_other (some j) (some k) ks rest d h e = ground (arith, h k refl, j≢k j k ks d.0 (h k refl))

Distinct-tail : (key : OrderingKey) (ks : List ℕ) → Distinct (cons_key key ks) → Distinct ks
Distinct-tail none ks d = d
Distinct-tail (some k) ks d = d.1

pub delete_key-Distinct :
    (key : OrderingKey) (ks : List ℕ) → Distinct ks → Distinct (delete_key key ks)
delete_key-Distinct none ks d = d
delete_key-Distinct (some k) ks d = delete-Distinct k ks d

-- The key that a finished run gives back is the key of no other run.
pub delete_key-run_keys :
    (p : ℕ) (rs : List Run) (r : Run)
    → find_run p rs ≡ some r
    → Distinct (run_keys rs)
    → delete_key r.item.ordering_key (run_keys rs) ≡ run_keys (remove_run p rs)
unfolding find_run remove_run
delete_key-run_keys p [] r e d = cc
delete_key-run_keys p (x ∷ xs) r e d = elim (Bool-cases (x.item.promise == p)) [
  | inl hit ↦
      let same : x ≡ r = ground arith in
      rw (hit, ← same) (delete_own x.item.ordering_key (run_keys xs) d)
  | inr miss ↦
      let found : find_run p xs ≡ some r = ground arith in
      rw miss (
        delete_other x.item.ordering_key r.item.ordering_key (run_keys xs) _ d
          (λ k. has-find_run p xs r k found)
          (delete_key-run_keys p xs r found (Distinct-tail x.item.ordering_key (run_keys xs) d)))
]
