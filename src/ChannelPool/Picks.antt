-- ===== src/ChannelPool/Picks.antt =====
-- Which account `#availableEntry` of packages/core/src/fleet/channelPool.ts picks.
use mathlib.Core.List.{Mem, mem-cons_self, mem-cons_of_mem}
use stellar_agentic.Base.{
  ◌≤◌, ◌≡◌, refl, false, subst, ◌⊎◌, inl, inr, true, some, List, [], ◌∷◌, All, All-imp, keep, first,
  if◌then◌else◌, Bool-cases, arith,
}
use stellar_agentic.Base.Sorting.{IsTotal, insert, sort, IsSorted, sort-IsSorted, sort-All}
use stellar_agentic.ChannelPool.{Entry, is_available, used_before, available_entry}

used_before-IsTotal : IsTotal used_before
used_before-IsTotal = record {
  total = λ x y. let d = leb-total x y in d;
  trans = λ x y z a b. ground arith;
}
  where
    leb-total : (x y : Entry) → (used_before x y ≡ true) ⊎ (used_before y x ≡ true)
    leb-total x y = ground arith

module _ (P : Entry → Type 0) where
  All-insert : (x : Entry) (xs : List Entry) → All P (insert used_before x xs) → All P (x ∷ xs)
  unfolding insert
  All-insert x [] h = h
  All-insert x (y ∷ ys) h = elim (Bool-cases (used_before x y)) [
    | inl e ↦
        let go = insert used_before x ys in
        let h' : All P (x ∷ y ∷ ys) = subst (λ b. All P (if b then x ∷ y ∷ ys else y ∷ go)) e h in
        h'
    | inr e ↦
        let go = insert used_before x ys in
        let h' : All P (y ∷ go) = subst (λ b. All P (if b then x ∷ y ∷ ys else y ∷ go)) e h in
        let rest = All-insert x ys h'.1 in (rest.0, (h'.0, rest.1))
  ]

  All-sort : (xs : List Entry) → All P (sort used_before xs) → All P xs
  unfolding sort
  All-sort [] h = tt
  All-sort (x ∷ xs) h =
      let both = All-insert x (sort used_before xs) h in (both.0, All-sort xs both.1)

-- Neither leased nor to be retired.
abbrev pub IsFree : Entry → Type 0
IsFree e = (e.leased ≡ false) × (e.retire ≡ false)

-- An entry that is free was used no earlier.
abbrev pub IsOlder : Entry → Entry → Type 0
IsOlder e x = IsFree x → e.last_used_at ≤ x.last_used_at

is_available-IsFree : (x : Entry) → is_available x ≡ true → IsFree x
is_available-IsFree x h = (ground arith, ground arith)

IsFree-is_available : (x : Entry) → IsFree x → is_available x ≡ true
IsFree-is_available x h = rw (h.0, h.1) refl

All-keep :
    (P : Entry → Type 0) (es : List Entry)
    → All P (keep is_available es)
    → All (λ x. is_available x ≡ true → P x) es
All-keep P [] h = tt
All-keep P (x ∷ es) h = elim (Bool-cases (is_available x)) [
  | inl e ↦
      let h' : All P (x ∷ keep is_available es) =
        subst (λ b. All P (if b then x ∷ keep is_available es else keep is_available es)) e h in
      ((λ f. h'.0), All-keep P es h'.1)
  | inr e ↦
      let h' : All P (keep is_available es) =
        subst (λ b. All P (if b then x ∷ keep is_available es else keep is_available es)) e h in
      ((λ f. absurd cc), All-keep P es h')
]

first_least :
    (es : List Entry) (e : Entry)
    → IsSorted used_before es
    → first es ≡ some e
    → All (λ x. e.last_used_at ≤ x.last_used_at) es
first_least [] e s f = cc
first_least (x ∷ es) e s f =
    let same : x ≡ e = ground arith in
    subst (λ y. All (λ x. y.last_used_at ≤ x.last_used_at) (x ∷ es)) same
      (omega arith, All-imp es (λ y h. ground arith) s.0)

keep-IsFree :
    (es all : List Entry)
    → ((x : Entry) → Mem x es → Mem x all)
    → All (λ x. Mem x all × IsFree x) (keep is_available es)
keep-IsFree [] all h = tt
keep-IsFree (x ∷ es) all h =
    let rest = keep-IsFree es all (λ y m. h y (mem-cons_of_mem x m)) in
    elim (Bool-cases (is_available x)) [
      | inl e ↦ rw e ((h x mem-cons_self, is_available-IsFree x e), rest)
      | inr e ↦ rw e rest
    ]

first-All : (P : Entry → Type 0) (es : List Entry) (e : Entry) → first es ≡ some e → All P es → P e
first-All P [] e f h = absurd cc
first-All P (x ∷ es) e f h = let same : x ≡ e = ground arith in subst P same h.0

-- The account that is leased next is one of the pool's, neither leased nor retired, and of those it
-- was given back longest ago: no account that is neither leased nor retired was last used before it.
pub available_entry-oldest :
    (es : List Entry) (e : Entry)
    → available_entry es ≡ some e
    → Mem e es × IsFree e × All (IsOlder e) es
unfolding available_entry
available_entry-oldest es e f =
    let found =
      first-All (λ x. Mem x es × IsFree x) (sort used_before (keep is_available es)) e f
        (sort-All used_before (λ x. Mem x es × IsFree x) (keep is_available es)
          (keep-IsFree es es (λ x m. m))) in
    let older =
      All-keep (λ x. e.last_used_at ≤ x.last_used_at) es
        (All-sort (λ x. e.last_used_at ≤ x.last_used_at) (keep is_available es)
          (first_least (sort used_before (keep is_available es)) e
            (sort-IsSorted used_before used_before-IsTotal _) f)) in
    (found.0, found.1, All-imp es (λ x h free. h (IsFree-is_available x free)) older)
