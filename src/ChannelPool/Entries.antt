-- ===== src/ChannelPool/Entries.antt =====
-- The map of entries of packages/core/src/fleet/channelPool.ts: how often an address stands in it,
-- leased or not, and the entry that `#availableEntry` picks.
use stellar_agentic.Base.{
  ℕ, ◌+◌, ◌≤◌, ◌≡◌, refl, ap, subst, true, false, none, some, List, [], ◌∷◌, All, All-imp, length,
  keep, first, ◌==◌, if◌then◌else◌, Bool-cases, inl, inr, arith,
}
use mathlib.Core.List.Perm
use stellar_agentic.Base.Sorting.{sort, sort-All, sort-perm}
use stellar_agentic.ChannelPool.{
  Entry, has_entry, is_available, used_before, available_entry, update_entry, delete_entry,
  is_leased,
}

abbrev pub one : ℕ → ℕ → ℕ
one b a = if b == a then 1 else 0

-- How many entries have the address.
abbrev pub entry_count : ℕ → List Entry → ℕ
entry_count a [] = 0
entry_count a (e ∷ es) = one e.address a + entry_count a es

-- How many of them are leased.
abbrev pub leased_count : ℕ → List Entry → ℕ
leased_count a [] = 0
leased_count a (e ∷ es) = (if e.leased then one e.address a else 0) + leased_count a es

pub leased-le : (a : ℕ) (es : List Entry) → leased_count a es ≤ entry_count a es
leased-le a [] = omega arith
leased-le a (e ∷ es) = ground (arith, leased-le a es)

-- Each address stands there once at most.
abbrev pub AreDistinct : List Entry → Type 0
AreDistinct es = (a : ℕ) → entry_count a es ≤ 1

pub has_entry-count : (a : ℕ) (es : List Entry) → has_entry a es ≡ true → 1 ≤ entry_count a es
has_entry-count a [] h = cc
has_entry-count a (e ∷ es) h = ground (arith, has_entry-count a es)

pub count_absent : (a : ℕ) (es : List Entry) → has_entry a es ≡ false → entry_count a es ≡ 0
count_absent a [] h = refl
count_absent a (e ∷ es) h = ground (arith, count_absent a es)

-- A write that keeps the address keeps the counts.
module _ (f : Entry → Entry) (same : (e : Entry) → (f e).address ≡ e.address) where
  pub entry_count-update_entry :
      (a b : ℕ) (es : List Entry) → entry_count a (update_entry b f es) ≡ entry_count a es
  entry_count-update_entry a b [] = refl
  entry_count-update_entry a b (e ∷ es) = elim (Bool-cases (e.address == b)) [
    | inl hit ↦ rw (hit, same e) refl
    | inr miss ↦ rw miss (ap (◌+◌ (one e.address a)) (entry_count-update_entry a b es))
  ]

  pub length-update_entry : (b : ℕ) (es : List Entry) → length (update_entry b f es) ≡ length es
  length-update_entry b [] = refl
  length-update_entry b (e ∷ es) = ground (arith, length-update_entry b es)

pub length-delete_entry : (b : ℕ) (es : List Entry) → length (delete_entry b es) ≤ length es
length-delete_entry b [] = omega arith
length-delete_entry b (e ∷ es) = ground (arith, length-delete_entry b es)

pub entry_count-delete_entry :
    (a b : ℕ) (es : List Entry) → entry_count a (delete_entry b es) ≤ entry_count a es
entry_count-delete_entry a b [] = omega arith
entry_count-delete_entry a b (e ∷ es) = ground (arith, entry_count-delete_entry a b es)

-- An idle entry leaves, and no leased one does.
pub leased_count-delete_entry :
    (a b : ℕ) (es : List Entry)
    → is_leased b es ≡ false
    → leased_count a (delete_entry b es) ≡ leased_count a es
leased_count-delete_entry a b [] h = refl
leased_count-delete_entry a b (e ∷ es) h = ground (arith, leased_count-delete_entry a b es)

-- An entry is leased.
pub leased_count-lease :
    (a b : ℕ) (es : List Entry)
    → has_entry b es ≡ true
    → is_leased b es ≡ false
    → leased_count a (update_entry b (λ e. record e { leased = true }) es)
      ≡ one b a + leased_count a es
leased_count-lease a b [] h l = cc
leased_count-lease a b (e ∷ es) h l = ground (arith, leased_count-lease a b es)

-- A leased entry is given back.
pub leased_count-free :
    (a b now : ℕ) (es : List Entry)
    → is_leased b es ≡ true
    → leased_count a es
      ≡ one b a
        + leased_count a (update_entry b (λ e. record e { leased = false; last_used_at = now }) es)
leased_count-free a b now [] l = cc
leased_count-free a b now (e ∷ es) l = ground (arith, leased_count-free a b now es)

-- A write that leaves the lease alone.
pub leased_count-retire :
    (a b : ℕ) (es : List Entry)
    → leased_count a (update_entry b (λ e. record e { retire = true }) es) ≡ leased_count a es
leased_count-retire a b [] = refl
leased_count-retire a b (e ∷ es) = ground (arith, leased_count-retire a b es)

pub leased_pos :
    (b : ℕ) (es : List Entry) → entry_count b es ≤ 1 → 1 ≤ leased_count b es → is_leased b es ≡ true
leased_pos b [] d h = absurd (omega arith)
leased_pos b (e ∷ es) d h = ground (arith, leased_pos b es, leased-le b es)

pub not_leased : (b : ℕ) (es : List Entry) → leased_count b es ≡ 0 → is_leased b es ≡ false
not_leased b [] h = refl
not_leased b (e ∷ es) h = ground (arith, not_leased b es)

-- What is known of an entry that may be leased.
abbrev pub CanLease : List Entry → Entry → Type 0
CanLease es e = (has_entry e.address es ≡ true) × (leased_count e.address es ≡ 0)

AreDistinct-tail : (x : Entry) (es : List Entry) → AreDistinct (x ∷ es) → AreDistinct es
AreDistinct-tail x es d a = omega (arith, d a)

CanLease-cons :
    (x : Entry) (es : List Entry) (e : Entry)
    → AreDistinct (x ∷ es)
    → CanLease es e
    → CanLease (x ∷ es) e
CanLease-cons x es e d h =
    let stands = has_entry-count e.address es h.0 in
    let once = d e.address in (ground arith, ground arith)

CanLease-head :
    (x : Entry) (es : List Entry)
    → AreDistinct (x ∷ es)
    → is_available x ≡ true
    → CanLease (x ∷ es) x
CanLease-head x es d h =
    let once = d x.address in let few = leased-le x.address es in (ground arith, ground arith)

keep-CanLease : (es : List Entry) → AreDistinct es → All (CanLease es) (keep is_available es)
keep-CanLease [] d = tt
keep-CanLease (x ∷ es) d =
    let rest =
      All-imp (keep is_available es) (λ e h. CanLease-cons x es e d h)
        (keep-CanLease es (AreDistinct-tail x es d)) in
    elim (Bool-cases (is_available x)) [
      | inl free ↦ rw free (CanLease-head x es d free, rest)
      | inr busy ↦ rw busy rest
    ]

All-first : (P : Entry → Type 0) (es : List Entry) (e : Entry) → All P es → first es ≡ some e → P e
All-first P [] e h f = cc
All-first P (x ∷ xs) e h f = subst P (let same : x ≡ e = ground arith in same) h.0

-- The entry that is picked may be leased.
pub available_entry-CanLease :
    (es : List Entry) (e : Entry) → AreDistinct es → available_entry es ≡ some e → CanLease es e
unfolding available_entry
available_entry-CanLease es e d f =
    All-first (CanLease es) (sort used_before (keep is_available es)) e
      (sort-All used_before (CanLease es) (keep is_available es) (keep-CanLease es d)) f

-- No entry is free.
abbrev pub NoneFree : List Entry → Type 0
NoneFree es = All (λ e. is_available e ≡ false) es

keep_none : (es : List Entry) → keep is_available es ≡ [] → NoneFree es
keep_none [] h = tt
keep_none (x ∷ es) h = elim (Bool-cases (is_available x)) [
  | inl free ↦ absurd (ground arith)
  | inr busy ↦ (busy, keep_none es (ground arith))
]

first-none : (es : List Entry) → first es ≡ none → es ≡ []
first-none [] h = refl
first-none (e ∷ es) h = cc

pub available_entry-none : (es : List Entry) → available_entry es ≡ none → NoneFree es
unfolding available_entry
available_entry-none es h =
    let empty = first-none (sort used_before (keep is_available es)) h in
    keep_none es (
      Perm.eq-nil (
        Perm.trans (Perm.symm (sort-perm used_before (keep is_available es)))
          (rw empty (Perm.refl []))))
