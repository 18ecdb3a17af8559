-- ===== src/Pep/Client/Places.antt =====
-- Lists that answer one another place by place, for the batches of the cached client.
use dev_health_go.Base.{ℕ, suc, ◌≡◌, refl, arith, length, List, [], ◌∷◌, ◌⊎◌, inl, inr}

-- Both lists are as long, and `R` relates what stands at each position, which is counted from `i`.
abbrev pub AllAt : {A B : Type 0} → (ℕ → A → B → Type 0) → ℕ → List A → List B → Type 0
AllAt R i [] [] = Unit {0}
AllAt R i (x ∷ xs) (y ∷ ys) = R i x y × AllAt R (suc i) xs ys
AllAt R i [] (y ∷ ys) = ⊥
AllAt R i (x ∷ xs) [] = ⊥

-- At some position `x` stands in the one list and `y` in the other.
abbrev pub Paired : {A B : Type 0} → A → B → List A → List B → Type 0
Paired x y (a ∷ xs) (b ∷ ys) = ((a ≡ x) × (b ≡ y)) ⊎ Paired x y xs ys
Paired x y _ _ = ⊥

pub AllAt-any :
    {A B : Type 0} (i : ℕ) (xs : List A) (ys : List B)
    → length ys ≡ length xs
    → AllAt (λ j x y. Unit {0}) i xs ys
AllAt-any i [] [] e = tt
AllAt-any i (x ∷ xs) (y ∷ ys) e = (tt, AllAt-any (suc i) xs ys (omega (arith, e)))
AllAt-any i [] (y ∷ ys) e = absurd (omega (arith, e))
AllAt-any i (x ∷ xs) [] e = absurd (omega (arith, e))

pub AllAt-imp :
    {A B : Type 0} (R S : ℕ → A → B → Type 0)
    → ((i : ℕ) (x : A) (y : B) → R i x y → S i x y)
    → (i : ℕ) (xs : List A) (ys : List B) → AllAt R i xs ys
    → AllAt S i xs ys
AllAt-imp R S f i [] [] h = tt
AllAt-imp R S f i (x ∷ xs) (y ∷ ys) (h, hs) = (f i x y h, AllAt-imp R S f (suc i) xs ys hs)
AllAt-imp R S f i [] (y ∷ ys) h = absurd h
AllAt-imp R S f i (x ∷ xs) [] h = absurd h

-- What stands at one position of both lists is paired.
pub AllAt-Paired :
    {A B : Type 0} (R : ℕ → A → B → Type 0) (i : ℕ) (xs : List A) (ys : List B)
    → AllAt R i xs ys
    → AllAt (λ j x y. Paired x y xs ys) i xs ys
AllAt-Paired R i [] [] h = tt
AllAt-Paired R i (x ∷ xs) (y ∷ ys) (h, hs) = (
  inl (refl, refl),
  AllAt-imp (λ j a b. Paired a b xs ys) (λ j a b. Paired a b (x ∷ xs) (y ∷ ys)) (λ j a b. inr)
      (suc i) xs ys (AllAt-Paired R (suc i) xs ys hs),
)
AllAt-Paired R i [] (y ∷ ys) h = absurd h
AllAt-Paired R i (x ∷ xs) [] h = absurd h
