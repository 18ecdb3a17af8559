-- ===== src/Pep/Cache/Guards.antt =====
-- A guard on a key survives every change of the list, or becomes the floor (pep/cache.go).
use dev_health_go.Base.{
  ℕ, ◌≤◌, ◌<◌, ◌≡◌, ◌≢◌, List, [], ◌∷◌, true, ◌==◌, All, arith, some, ◌⊎◌, inl, inr, Bool-cases,
}
use dev_health_go.Pep.Cache.{Entry, find, remove, put, sweep, back, front, is_guarded}
use dev_health_go.Pep.Cache.Entries.{Differs, Distinct}

-- An entry of the key has a guard of at least `g`.
abbrev pub Holds : ℕ → ℕ → Entry → Type 0
Holds k g e = (e.key ≡ k) × (g ≤ e.guard)

abbrev pub Keeps : ℕ → ℕ → List Entry → Type 0
Keeps k g [] = ⊥
Keeps k g (e ∷ l) = Holds k g e ⊎ Keeps k g l

pub Keeps-not_Differs : (k g : ℕ) (l : List Entry) → All (Differs k) l → Keeps k g l → ⊥
Keeps-not_Differs k g [] a h = h
Keeps-not_Differs k g (e ∷ l) a (inl h) = a.0 h.0
Keeps-not_Differs k g (e ∷ l) a (inr h) = Keeps-not_Differs k g l a.1 h

pub Keeps-is_guarded :
    (k g stamp : ℕ) (l : List Entry)
    → Distinct l
    → Keeps k g l
    → stamp < g
    → is_guarded stamp (find k l) ≡ true
unfolding find
Keeps-is_guarded k g stamp [] d h lt = absurd h
Keeps-is_guarded k g stamp (e ∷ l) d (inl h) lt = ground arith
Keeps-is_guarded k g stamp (e ∷ l) d (inr h) lt = elim (Bool-cases (e.key == k)) [
  | inl same ↦ let q : e.key ≡ k = ground arith in absurd (Keeps-not_Differs k g l (rw q at d.0) h)
  | inr other ↦ rw other (Keeps-is_guarded k g stamp l d.1 h lt)
]

pub remove-Keeps : (k g j : ℕ) (l : List Entry) → j ≢ k → Keeps k g l → Keeps k g (remove j l)
unfolding remove
remove-Keeps k g j [] n h = h
remove-Keeps k g j (e ∷ l) n (inl h) = elim (Bool-cases (e.key == j)) [
  | inl same ↦ absurd (ground arith)
  | inr other ↦ rw other (inl h)
]
remove-Keeps k g j (e ∷ l) n (inr h) = elim (Bool-cases (e.key == j)) [
  | inl same ↦ rw same h
  | inr other ↦ rw other (inr (remove-Keeps k g j l n h))
]

-- An element that moves to the front, or is replaced by one with its key and guard.
pub touch-Keeps :
    (k g j : ℕ) (l : List Entry) (e x : Entry)
    → find j l ≡ some e
    → x.key ≡ e.key
    → x.guard ≡ e.guard
    → Keeps k g l
    → Keeps k g (x ∷ remove j l)
unfolding find remove
touch-Keeps k g j [] e x f p q h = absurd h
touch-Keeps k g j (y ∷ l) e x f p q (inl h) = elim (Bool-cases (y.key == j)) [
  | inl same ↦ let r : y ≡ e = ground arith in inl (ground arith)
  | inr other ↦ rw other (inr (inl h))
]
touch-Keeps k g j (y ∷ l) e x f p q (inr h) = elim (Bool-cases (y.key == j)) [
  | inl same ↦ rw same (inr h)
  | inr other ↦ rw other (push (touch-Keeps k g j l e x (ground arith) p q h))
]
  where
    push : Keeps k g (x ∷ remove j l) → Keeps k g (x ∷ y ∷ remove j l)
    push (inl a) = inl a
    push (inr b) = inr (inr b)

pub put-Keeps :
    (k g j : ℕ) (l : List Entry) (e x : Entry)
    → find j l ≡ some e
    → x.key ≡ j
    → x.guard ≡ e.guard
    → Keeps k g l
    → Keeps k g (put x l)
unfolding find put
put-Keeps k g j [] e x f p q h = absurd h
put-Keeps k g j (y ∷ l) e x f p q (inl h) = elim (Bool-cases (y.key == x.key)) [
  | inl same ↦ rw same (inl (ground arith))
  | inr other ↦ rw other (inl h)
]
put-Keeps k g j (y ∷ l) e x f p q (inr h) = elim (Bool-cases (y.key == x.key)) [
  | inl same ↦ rw same (inr h)
  | inr other ↦ rw other (inr (put-Keeps k g j l e x (ground arith) p q h))
]

pub sweep-Keeps : (k g rev : ℕ) (l : List Entry) → Keeps k g l → Keeps k g (sweep rev l)
unfolding sweep
sweep-Keeps k g rev [] h = h
sweep-Keeps k g rev (e ∷ l) (inl h) = inl (ground arith)
sweep-Keeps k g rev (e ∷ l) (inr h) = inr (sweep-Keeps k g rev l h)

-- When the back element goes, the guard stays in the list or was the back element's.
pub front-Keeps :
    (k g : ℕ) (e : Entry) (l : List Entry)
    → Keeps k g (e ∷ l)
    → Keeps k g (front e l) ⊎ (g ≤ (back e l).guard)
unfolding front back
front-Keeps k g e [] (inl h) = inr h.1
front-Keeps k g e [] (inr h) = absurd h
front-Keeps k g e (x ∷ l) (inl h) = inl (inl h)
front-Keeps k g e (x ∷ l) (inr h) = elim (front-Keeps k g x l h) [
  | inl stays ↦ inl (inr stays)
  | inr goes ↦ inr goes
]
