-- ===== src/Pep/Cache/Entries.antt =====
-- Lemmas on the cache's list of entries (pep/cache.go): what each list operation keeps.
use dev_health_go.Base.{
  ℕ, suc, ◌+◌, ◌-◌, ◌≤◌, ◌≡◌, ◌≢◌, refl, length, List, [], ◌∷◌, ◌==◌, All, arith, none, some,
  if◌then◌else◌, inl, inr, Bool-cases,
}
use dev_health_go.Pep.Cache.{Entry, find, remove, put, dead, sweep, swept, back, front, or_blank}

abbrev pub live_count : List Entry → ℕ
live_count [] = 0
live_count (e ∷ l) = (if e.live then 1 else 0) + live_count l

abbrev pub Differs : ℕ → Entry → Type 0
Differs k e = e.key ≢ k

-- No two entries have one key.
abbrev pub Distinct : List Entry → Type 0
Distinct [] = Unit
Distinct (e ∷ l) = All (Differs e.key) l × Distinct l

pub find-Differs : (k : ℕ) (l : List Entry) → All (Differs k) l → find k l ≡ none
unfolding find
find-Differs k [] h = refl
find-Differs k (e ∷ l) h = ground (arith, find-Differs k l h.1)

pub Differs-of_none : (k : ℕ) (l : List Entry) → find k l ≡ none → All (Differs k) l
unfolding find
Differs-of_none k [] h = tt
Differs-of_none k (e ∷ l) h = ((λ q. ground arith), Differs-of_none k l (ground arith))

pub find_key : (k : ℕ) (l : List Entry) (e : Entry) → find k l ≡ some e → e.key ≡ k
unfolding find
find_key k [] e h = cc
find_key k (x ∷ l) e h = ground (arith, find_key k l e)

module _ (P : Entry → Type 0) where
  pub find-All : (k : ℕ) (l : List Entry) (e : Entry) → find k l ≡ some e → All P l → P e
  unfolding find
  find-All k [] e h a = absurd (ground arith)
  find-All k (x ∷ l) e h a = ground (arith, find-All k l e)

  pub remove-All : (k : ℕ) (l : List Entry) → All P l → All P (remove k l)
  unfolding remove
  remove-All k [] a = tt
  remove-All k (x ∷ l) a = ground (arith, remove-All k l a.1)

  pub put-All : (e : Entry) (l : List Entry) → P e → All P l → All P (put e l)
  unfolding put
  put-All e [] p a = tt
  put-All e (x ∷ l) p a = ground (arith, put-All e l p a.1)

  pub front-All : (e : Entry) (l : List Entry) → P e → All P l → All P (front e l)
  unfolding front
  front-All e [] p a = tt
  front-All e (x ∷ l) p a = (p, front-All x l a.0 a.1)

  pub back-All : (e : Entry) (l : List Entry) → P e → All P l → P (back e l)
  unfolding back
  back-All e [] p a = p
  back-All e (x ∷ l) p a = back-All x l a.0 a.1

  pub sweep-All :
      (keep : (e : Entry) → P e → P (dead e)) (rev : ℕ) (l : List Entry)
      → All P l
      → All P (sweep rev l)
  unfolding sweep
  sweep-All keep rev [] a = tt
  sweep-All keep rev (x ∷ l) a = (ground (arith, keep x a.0), sweep-All keep rev l a.1)

pub remove-Differs : (k : ℕ) (l : List Entry) → Distinct l → All (Differs k) (remove k l)
unfolding remove
remove-Differs k [] d = tt
remove-Differs k (x ∷ l) d = elim (Bool-cases (x.key == k)) [
  | inl same ↦ rw same (let e : x.key ≡ k = ground arith in rw e at d.0)
  | inr other ↦ rw other ((λ q. ground arith), remove-Differs k l d.1)
]

pub remove-Distinct : (k : ℕ) (l : List Entry) → Distinct l → Distinct (remove k l)
unfolding remove
remove-Distinct k [] d = tt
remove-Distinct k (x ∷ l) d =
    ground (arith, remove-Distinct k l d.1, remove-All (Differs x.key) k l d.0)

put-Differs : (k : ℕ) (e : Entry) (l : List Entry) → All (Differs k) l → All (Differs k) (put e l)
unfolding put
put-Differs k e [] a = tt
put-Differs k e (x ∷ l) a = elim (Bool-cases (x.key == e.key)) [
  | inl same ↦ rw same ((λ q. a.0 (ground arith)), a.1)
  | inr other ↦ rw other (a.0, put-Differs k e l a.1)
]

pub put-Distinct : (e : Entry) (l : List Entry) → Distinct l → Distinct (put e l)
unfolding put
put-Distinct e [] d = tt
put-Distinct e (x ∷ l) d = elim (Bool-cases (x.key == e.key)) [
  | inl same ↦ let q : x.key ≡ e.key = ground arith in rw same (rw (← q) d.0, d.1)
  | inr other ↦ rw other (put-Differs x.key e l d.0, put-Distinct e l d.1)
]

pub front-Distinct : (e : Entry) (l : List Entry) → Distinct (e ∷ l) → Distinct (front e l)
unfolding front
front-Distinct e [] d = tt
front-Distinct e (x ∷ l) d = (front-All (Differs e.key) x l d.0.0 d.0.1, front-Distinct x l d.1)

sweep-Differs : (k rev : ℕ) (l : List Entry) → All (Differs k) l → All (Differs k) (sweep rev l)
sweep-Differs k rev l = sweep-All (Differs k) (λ e h. h) rev l

pub sweep-Distinct : (rev : ℕ) (l : List Entry) → Distinct l → Distinct (sweep rev l)
unfolding sweep
sweep-Distinct rev [] d = tt
sweep-Distinct rev (x ∷ l) d =
    ground (arith, sweep-Differs x.key rev l d.0, sweep-Distinct rev l d.1)

pub live_count-remove :
    (k : ℕ) (l : List Entry)
    → live_count (remove k l) + (if (or_blank k (find k l)).live then 1 else 0) ≡ live_count l
unfolding remove find
live_count-remove k [] = omega arith
live_count-remove k (x ∷ l) = ground (arith, live_count-remove k l)

pub live_count-put :
    (e : Entry) (l : List Entry) (x : Entry)
    → find e.key l ≡ some x
    → live_count (put e l) + (if x.live then 1 else 0) ≡ live_count l + (if e.live then 1 else 0)
unfolding put find
live_count-put e [] x h = cc
live_count-put e (y ∷ l) x h = ground (arith, live_count-put e l x)

pub swept_lem :
    (rev : ℕ) (l : List Entry) (n m : ℕ)
    → n ≡ live_count l + m
    → swept rev l n ≡ live_count (sweep rev l) + m
unfolding sweep swept
swept_lem rev [] n m h = h
swept_lem rev (x ∷ l) n m h =
    ground (arith, swept_lem rev l (n - 1) m, swept_lem rev l n m, swept_lem rev l n (m + 1))

pub live_count-front :
    (e : Entry) (l : List Entry)
    → live_count (front e l) + (if (back e l).live then 1 else 0) ≡ live_count (e ∷ l)
unfolding front back
live_count-front e [] = omega arith
live_count-front e (x ∷ l) = omega (arith, live_count-front x l)

pub length-front : (e : Entry) (l : List Entry) → length (front e l) ≡ length l
unfolding front
length-front e [] = refl
length-front e (x ∷ l) = omega (arith, length-front x l)

pub length-sweep : (rev : ℕ) (l : List Entry) → length (sweep rev l) ≡ length l
unfolding sweep
length-sweep rev [] = refl
length-sweep rev (x ∷ l) = omega (arith, length-sweep rev l)

pub length-put : (e : Entry) (l : List Entry) → length (put e l) ≡ length l
unfolding put
length-put e [] = refl
length-put e (x ∷ l) = ground (arith, length-put e l)

pub length-remove :
    (k : ℕ) (l : List Entry) (e : Entry) → find k l ≡ some e → suc (length (remove k l)) ≡ length l
unfolding find remove
length-remove k [] e h = cc
length-remove k (x ∷ l) e h = ground (arith, length-remove k l e)

pub length-remove-le : (k : ℕ) (l : List Entry) → length (remove k l) ≤ length l
unfolding remove
length-remove-le k [] = omega arith
length-remove-le k (x ∷ l) = ground (arith, length-remove-le k l)
