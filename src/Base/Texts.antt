-- ===== src/Base/Texts.antt =====
-- Texts as lists of bytes: equality, ASCII literals, and maps with texts for keys.
use Prim.Native.Char.{code}
use Prim.Native.String.{String}
use Prim.Native.Nat.{compare, Ordering}
use mathlib.Core.Path.{◌≡◌, refl, sym, ap, subst, ◌∙◌}
use mathlib.Core.Logic.{◌≢◌, inl, inr}
use mathlib.Core.Bool.{Bool, true, false, ◌&&◌, ◌||◌}
use mathlib.Core.Option.{Option, none, some}
use mathlib.Core.List.{List, [], ◌∷◌}
use native.Mathlib.Omega.{arith}
use stellar_agentic.Base.Tests.{◌==◌, if◌then◌else◌, Bool-cases, eq_false_of_ne_true}
use stellar_agentic.Base.Numbers.{Bytes}

-- `===` on texts.
abbrev pub same_bytes : Bytes → Bytes → Bool
same_bytes [] [] = true
same_bytes (x ∷ xs) (y ∷ ys) = x == y && same_bytes xs ys
same_bytes _ _ = false

-- The bytes of an ASCII text.
abbrev pub codes : String → Bytes
codes String.[] = []
codes (String.◌∷◌ c s) = code c ∷ codes s

pub same_bytes-eq : (a b : Bytes) → same_bytes a b ≡ true → a ≡ b
same_bytes-eq [] [] h = refl
same_bytes-eq [] (y ∷ ys) h = cc
same_bytes-eq (x ∷ xs) [] h = cc
same_bytes-eq (x ∷ xs) (y ∷ ys) h = ground (arith, same_bytes-eq xs ys)

pub same_bytes_refl : (a : Bytes) → same_bytes a a ≡ true
same_bytes_refl [] = refl
same_bytes_refl (x ∷ xs) = ground (arith, same_bytes_refl xs)

pub same_bytes_ne : (a b : Bytes) → same_bytes a b ≡ false → a ≢ b
same_bytes_ne a b h e = cc (h, e, same_bytes_refl a)

pub same_bytes-of_ne : (a b : Bytes) → a ≢ b → same_bytes a b ≡ false
same_bytes-of_ne a b n = eq_false_of_ne_true λ t. n (same_bytes-eq a b t)

-- A text that is there and is not empty: what `if (!text)` lets through.
abbrev pub truthy : Option Bytes → Option Bytes
truthy (some (c ∷ cs)) = some (c ∷ cs)
truthy _ = none

-- `Array.prototype.includes`
abbrev pub member : Bytes → List Bytes → Bool
member a [] = false
member a (b ∷ bs) = same_bytes b a || member a bs

-- Texts by their bytes.
abbrev pub lexicographic : Bytes → Bytes → Ordering
lexicographic [] [] = Ordering.eq
lexicographic [] (y ∷ ys) = Ordering.lt
lexicographic (x ∷ xs) [] = Ordering.gt
lexicographic (x ∷ xs) (y ∷ ys) = elim (compare x y) [
  | Ordering.eq ↦ lexicographic xs ys
  | Ordering.lt ↦ Ordering.lt
  | Ordering.gt ↦ Ordering.gt
]

-- A `Map` whose keys are texts, in insertion order.
abbrev pub Dict {ℓ} : Type ℓ → Type ℓ
Dict V = List (Bytes × V)

module _ {ℓ} {V : Type ℓ} where
  abbrev pub get : Bytes → Dict V → Option V
  get k [] = none
  get k ((j, v) ∷ d) = if same_bytes j k then some v else get k d

  -- `Map.prototype.set`
  unfoldable pub put : Bytes → V → Dict V → Dict V
  put k v [] = (k, v) ∷ []
  put k v ((j, w) ∷ d) = if same_bytes j k then (j, v) ∷ d else (j, w) ∷ put k v d

  abbrev pub keys : Dict V → List Bytes
  keys [] = []
  keys ((k, v) ∷ d) = k ∷ keys d

  pub get-put_self : (k : Bytes) (v : V) (d : Dict V) → get k (put k v d) ≡ some v
  unfolding put
  get-put_self k v [] = rw (same_bytes_refl k) refl
  get-put_self k v ((j, w) ∷ d) = elim (Bool-cases (same_bytes j k)) [
    | inl e ↦ rw (e, e) refl
    | inr e ↦ rw (e, e) (get-put_self k v d)
  ]

  pub get-put_ne :
      (i k : Bytes) (v : V) (d : Dict V) → same_bytes k i ≡ false → get i (put k v d) ≡ get i d
  unfolding put
  get-put_ne i k v [] h = rw h refl
  get-put_ne i k v ((j, w) ∷ d) h = elim (Bool-cases (same_bytes j k)) [
    | inl e ↦
        let f = subst (λ u. same_bytes u i ≡ false) (sym (same_bytes-eq j k e)) h in rw (e, f) refl
    | inr e ↦ rw e (ap (λ r. if same_bytes j i then some w else r) (get-put_ne i k v d h))
  ]

  -- No key stands there twice.
  abbrev pub NodupKeys : Dict V → Type ℓ
  NodupKeys [] = Unit
  NodupKeys ((k, v) ∷ d) = (get k d ≡ none) × NodupKeys d

  pub put-NodupKeys : (k : Bytes) (v : V) (d : Dict V) → NodupKeys d → NodupKeys (put k v d)
  unfolding put
  put-NodupKeys k v [] u = (refl, tt)
  put-NodupKeys k v ((j, w) ∷ d) u = elim (Bool-cases (same_bytes j k)) [
    | inl e ↦ rw e u
    | inr e ↦ rw e (
      get-put_ne j k v d (same_bytes-of_ne k j λ q. same_bytes_ne j k e (sym q)) ∙ u.0,
      put-NodupKeys k v d u.1,
    )
  ]

  -- `set` takes no key away.
  pub put-absent : (a k : Bytes) (v : V) (d : Dict V) → get a (put k v d) ≡ none → get a d ≡ none
  put-absent a k v d h = elim (Bool-cases (same_bytes k a)) [
    | inl e ↦ cc (h, get-put_self a v d, same_bytes-eq k a e)
    | inr e ↦ sym (get-put_ne a k v d e) ∙ h
  ]
