-- ===== src/Routing/Lexicographic.antt =====
-- `binaryCompare` of packages/core/src/math/routing.ts against the lexicographic order.
use stellar_agentic.Base.{ℕ, ◌<◌, ◌≡◌, refl, ◌⊎◌, inl, inr, ◌↔◌, true, [], ◌∷◌, arith}
use stellar_agentic.Base.Numbers.{Bytes}
use stellar_agentic.Routing.{binary_compare, not_positive}

-- The first component decides; where it is the same, the rest does.
abbrev pub Lex : ℕ → ℕ → Type 0 → Type 0
Lex x y P = (x < y) ⊎ ((x ≡ y) × P)

pub Lex-trans : {x y z : ℕ} {P Q R : Type 0} → (P → Q → R) → Lex x y P → Lex y z Q → Lex x z R
Lex-trans f (inl h) (inl k) = inl (omega arith)
Lex-trans f (inl h) (inr (e, q)) = inl (omega arith)
Lex-trans f (inr (e, p)) (inl k) = inl (omega arith)
Lex-trans f (inr (e, p)) (inr (e', q)) = inr (omega arith, f p q)

pub Lex-total : (x y : ℕ) {P Q : Type 0} → P ⊎ Q → Lex x y P ⊎ Lex y x Q
Lex-total x y d = ground arith

pub Lex-antisym : {x y : ℕ} {P Q : Type 0} → Lex x y P → Lex y x Q → (x ≡ y) × P × Q
Lex-antisym (inl h) (inl k) = absurd (omega arith)
Lex-antisym (inl h) (inr (e, q)) = absurd (omega arith)
Lex-antisym (inr (e, p)) (inl k) = absurd (omega arith)
Lex-antisym (inr (e, p)) (inr (e', q)) = (e, p, q)

-- The same with the larger number first.
pub Lex-trans_down : {x y z : ℕ} {P Q R : Type 0} → (P → Q → R) → Lex y x P → Lex z y Q → Lex z x R
Lex-trans_down f p q = Lex-trans (λ q' p'. f p' q') q p

pub Lex-total_down : (x y : ℕ) {P Q : Type 0} → P ⊎ Q → Lex y x P ⊎ Lex x y Q
Lex-total_down x y d = ground arith

-- The lexicographic order on texts, a prefix first.
abbrev pub LexBytes : Bytes → Bytes → Type 0
LexBytes [] _ = Unit
LexBytes (x ∷ xs) [] = ⊥
LexBytes (x ∷ xs) (y ∷ ys) = Lex x y (LexBytes xs ys)

pub LexBytes-trans : (a b c : Bytes) → LexBytes a b → LexBytes b c → LexBytes a c
LexBytes-trans [] b c p q = tt
LexBytes-trans (x ∷ xs) [] c p q = absurd p
LexBytes-trans (x ∷ xs) (y ∷ ys) [] p q = absurd q
LexBytes-trans (x ∷ xs) (y ∷ ys) (z ∷ zs) p q = Lex-trans (LexBytes-trans xs ys zs) p q

pub LexBytes-total : (a b : Bytes) → LexBytes a b ⊎ LexBytes b a
LexBytes-total [] b = inl tt
LexBytes-total (x ∷ xs) [] = inr tt
LexBytes-total (x ∷ xs) (y ∷ ys) = Lex-total x y (LexBytes-total xs ys)

pub LexBytes-antisym : (a b : Bytes) → LexBytes a b → LexBytes b a → a ≡ b
LexBytes-antisym [] [] p q = refl
LexBytes-antisym [] (y ∷ ys) p q = absurd q
LexBytes-antisym (x ∷ xs) [] p q = absurd p
LexBytes-antisym (x ∷ xs) (y ∷ ys) p q =
    let both = Lex-antisym p q in
    let tails = LexBytes-antisym xs ys both.1 both.2 in let heads = both.0 in cc

-- One round of the loop, given what it finds behind the first bytes.
step_lem :
    (x y : ℕ) (xs ys : Bytes) {P : Type 0}
    → (not_positive (binary_compare xs ys) ≡ true) ↔ P
    → (not_positive (binary_compare (x ∷ xs) (y ∷ ys)) ≡ true) ↔ Lex x y P
unfolding binary_compare
step_lem x y xs ys h = (ground (arith, h.0), ground (arith, h.1))

-- `binaryCompare` is not positive exactly when its first text is at most the second in the
-- lexicographic order of their bytes, a prefix first.
pub binary_compare_lem : (a b : Bytes) → (not_positive (binary_compare a b) ≡ true) ↔ LexBytes a b
unfolding binary_compare
binary_compare_lem [] [] = (λ _. tt, λ _. refl)
binary_compare_lem [] (y ∷ ys) = (λ _. tt, λ _. refl)
binary_compare_lem (x ∷ xs) [] = (λ e. cc, λ h. absurd h)
binary_compare_lem (x ∷ xs) (y ∷ ys) = step_lem x y xs ys (binary_compare_lem xs ys)
