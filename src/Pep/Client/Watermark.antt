-- ===== src/Pep/Client/Watermark.antt =====
-- What DecideBatch of the cached client returns is no stale hit (pep/cache.go, belowWatermark and the
-- second ask).
use dev_health_go.Base.{
  ℕ, suc, ◌+◌, ◌≤◌, ◌≡◌, refl, ap, ◌∙◌, subst, Str, List, [], ◌∷◌, Bool, true, false, not, length,
  Option, none, some, ◌⊎◌, inl, inr, All, All-imp, arith, if_cases, Bool-cases,
}
use mathlib.Core.List.{Memᴰ}
use dev_health_go.Pep.Decision.{Decision}
use dev_health_go.Pep.Decision.Reasons.{Reason}
use dev_health_go.Pep.Request.{Request}
use dev_health_go.Pep.Cache.{Cache, get, stamp, observe}
use dev_health_go.Pep.Cache.Run.{Call, run}
use dev_health_go.Pep.Wire.{deny_all}
use dev_health_go.Pep.Client.Places.{AllAt}
use dev_health_go.Pep.Client.CachedBatch.{
  same, settle, Place, placed, chosen, decisions, failure, below_watermark, read_all, record_all,
  ask, ask_some, answer_with, check_hits, after_misses, batch_sections,
}

-- The items of the places.
abbrev pub items_of : List Place → List (Str × Request)
items_of [] = []
items_of (q ∷ qs) = q.item ∷ items_of qs

-- What is asked is among the items.
abbrev pub IsWithin : List (Str × Request) → List (Str × Request) → Type 0
IsWithin items asked = All (λ x. Memᴰ x items) asked

chosen-IsWithin : (hits : Bool) (qs : List Place) → IsWithin (items_of qs) (chosen hits qs)
chosen-IsWithin hits [] = tt
chosen-IsWithin hits (q ∷ qs) =
    let rest = All-imp (λ x m. Memᴰ.tail m) (chosen hits qs) (chosen-IsWithin hits qs) in
    if_cases (IsWithin (q.item ∷ items_of qs)) (same hits q.is_hit) (λ _. (Memᴰ.head refl, rest))
      (λ _. rest)

module _ (others : ℕ → List Call) (clock : ℕ → ℕ) (key : Request → ℕ)
    (send : ℕ → List (Str × Request) → ℕ → List Decision)
    (Hit : ℕ → Str × Request → Decision → Type 0) (P : Str × Request → Decision → Type 0) where
  -- What stands in `out` for a position: a hit of it, or, if it is an allow, an answer to its item.
  abbrev Fine : ℕ → Place → Type 0
  Fine i q =
      ((q.is_hit ≡ true) × Hit i q.item q.decision)
      ⊎ (q.decision.allowed ≡ true → P q.item q.decision)

  abbrev AllFine : ℕ → List Place → Type 0
  AllFine i [] = Unit {0}
  AllFine i (q ∷ qs) = Fine i q × AllFine (suc i) qs

  abbrev Answered : Place → Type 0
  Answered q = q.decision.allowed ≡ true → P q.item q.decision

  -- The answers to the chosen items, one to each.
  abbrev Sent : List (Str × Request) → List Decision → Type 0
  Sent items got = AllAt (λ i item d. d.allowed ≡ true → P item d) 0 items got

  abbrev SentAt : ℕ → List (Str × Request) → List Decision → Type 0
  SentAt j items got = AllAt (λ i item d. d.allowed ≡ true → P item d) j items got

  items_of-record_all :
      (c : Cache) (n seq asked : ℕ) (hits : Bool) (qs : List Place) (got : List Decision)
      → items_of (record_all others clock key send c n seq asked hits qs got).1 ≡ items_of qs
  unfolding record_all
  items_of-record_all c n seq asked hits [] got = refl
  items_of-record_all c n seq asked hits (q ∷ qs) [] = refl
  items_of-record_all c n seq asked hits (q ∷ qs) (d ∷ ds) =
      if_cases (λ (x : Cache × List Place). items_of x.1 ≡ items_of (q ∷ qs)) (same hits q.is_hit)
        (λ _. ap (λ xs. q.item ∷ xs) (items_of-record_all next (suc n) seq asked hits qs ds))
        (λ _. ap (λ xs. q.item ∷ xs) (items_of-record_all c n seq asked hits qs (d ∷ ds)))
    where
      next : Cache
      next = observe (run c (others n)) (key (q.item).1) d seq asked (clock n)

  record_all-AllFine :
      (i j : ℕ) (c : Cache) (n seq asked : ℕ) (qs : List Place) (got : List Decision)
      → AllFine i qs
      → SentAt j (chosen false qs) got
      → AllFine i (record_all others clock key send c n seq asked false qs got).1
  unfolding record_all
  record_all-AllFine i j c n seq asked [] got f g = tt
  record_all-AllFine i j c n seq asked (q ∷ qs) [] f g = f
  record_all-AllFine i j c n seq asked (q ∷ qs) (d ∷ ds) (f, fs) g =
      if_cases (λ (x : Cache × List Place). AllFine i x.1) (not q.is_hit)
        (λ miss.
          let sent = sent_miss g (ground arith) in
          (inr sent.0, record_all-AllFine (suc i) (suc j) next (suc n) seq asked qs ds fs sent.1))
        (λ hit. (
          f,
          record_all-AllFine (suc i) j c n seq asked qs (d ∷ ds) fs (sent_hit g (ground arith)),
        ))
    where
      next : Cache
      next = observe (run c (others n)) (key (q.item).1) d seq asked (clock n)

      sent_miss :
          SentAt j (chosen false (q ∷ qs)) (d ∷ ds)
          → q.is_hit ≡ false
          → SentAt j (q.item ∷ chosen false qs) (d ∷ ds)
      sent_miss g miss = rw miss at g

      sent_hit :
          SentAt j (chosen false (q ∷ qs)) (d ∷ ds)
          → q.is_hit ≡ true
          → SentAt j (chosen false qs) (d ∷ ds)
      sent_hit g hit = rw hit at g

  answered : (i : ℕ) (q : Place) → Fine i q → q.is_hit ≡ false → Answered q
  answered i q (inl (hit, h)) miss = absurd (ground arith)
  answered i q (inr a) miss = a

  -- Every hit is asked again, so what is left is answers.
  record_all-Answered :
      (i j : ℕ) (c : Cache) (n seq asked : ℕ) (qs : List Place) (got : List Decision)
      → AllFine i qs
      → SentAt j (chosen true qs) got
      → All Answered (record_all others clock key send c n seq asked true qs got).1
  unfolding record_all
  record_all-Answered i j c n seq asked [] got f g = tt
  record_all-Answered i j c n seq asked (q ∷ qs) [] (f, fs) g = elim (Bool-cases q.is_hit) [
    | inl hit ↦ absurd (rw hit at g)
    | inr miss ↦ (answered i q f miss, no_hits (suc i) j qs fs (rw miss at g))
  ]
    where
      no_hits :
          (i j : ℕ) (qs : List Place)
          → AllFine i qs
          → SentAt j (chosen true qs) []
          → All Answered qs
      no_hits i j [] f g = tt
      no_hits i j (q ∷ qs) (f, fs) g = elim (Bool-cases q.is_hit) [
        | inl hit ↦ absurd (rw hit at g)
        | inr miss ↦ (answered i q f miss, no_hits (suc i) j qs fs (rw miss at g))
      ]
  record_all-Answered i j c n seq asked (q ∷ qs) (d ∷ ds) (f, fs) g = elim (Bool-cases q.is_hit) [
    | inl hit ↦
        let sent : SentAt j (q.item ∷ chosen true qs) (d ∷ ds) = rw hit at g in
        rw hit (sent.0, record_all-Answered (suc i) (suc j) next (suc n) seq asked qs ds fs sent.1)
    | inr miss ↦ rw miss (
      answered i q f miss,
      record_all-Answered (suc i) j c n seq asked qs (d ∷ ds) fs (rw miss at g),
    )
  ]
    where
      next : Cache
      next = observe (run c (others n)) (key (q.item).1) d seq asked (clock n)

  -- An allow is an answer to its own item, or a hit of its own item that is not below the watermark.
  abbrev pub IsCurrent : ℕ → ℕ → Str × Request → Decision → Type 0
  IsCurrent watermark i item d =
      d.allowed ≡ true → P item d ⊎ (Hit i item d × (watermark ≤ d.policy_revision))

  above :
      (i : ℕ) (c : Cache) (qs : List Place)
      → below_watermark c qs ≡ false
      → AllFine i qs
      → AllAt (IsCurrent c.watermark) i (items_of qs) (decisions qs)
  unfolding below_watermark
  above i c [] h f = tt
  above i c (q ∷ qs) h (f, fs) = (current f, above (suc i) c qs (ground arith) fs)
    where
      current : Fine i q → IsCurrent c.watermark i q.item q.decision
      current (inl (hit, held)) a = inr (held, ground arith)
      current (inr answered) a = inl (answered a)

  Answered-IsCurrent :
      (i w : ℕ) (qs : List Place)
      → All Answered qs
      → AllAt (IsCurrent w) i (items_of qs) (decisions qs)
  Answered-IsCurrent i w [] h = tt
  Answered-IsCurrent i w (q ∷ qs) (h, hs) = (λ a. inl (h a), Answered-IsCurrent (suc i) w qs hs)

  -- The whole batch is denied, or each position is answered, and its allow current in the cache that the call
  -- leaves.
  abbrev pub IsDeniedOrCurrent : List (Str × Request) → Cache × List Decision → Type 0
  IsDeniedOrCurrent items x =
      ((r : Reason) × (status : ℕ) × (x.1 ≡ deny_all r status (length items)))
      ⊎ AllAt (IsCurrent (x.0).watermark) 0 items x.1

  module _ (items : List (Str × Request))
      (sends : (n : ℕ) (asked : List (Str × Request))
        → IsWithin items asked
        → Sent asked (send n asked (clock n))) where
    again_settled :
        (c : Cache) (n seq asked : ℕ) (qs : List Place) (got : List Decision)
        (x : Option (Reason × ℕ))
        → items_of qs ≡ items
        → AllFine 0 qs
        → Sent (chosen true qs) got
        → IsDeniedOrCurrent items (
            answer_with others clock key send
              (length items)
              (settle others clock key send c n seq asked true qs got x))
    again_settled c n seq asked qs got (some (r, status)) e f g = inl (r, status, refl)
    again_settled c n seq asked qs got none e f g =
        let done = record_all others clock key send c n seq asked true qs got in
        inr (
          subst (λ is. AllAt (IsCurrent (done.0).watermark) 0 is (decisions done.1))
            (items_of-record_all c n seq asked true qs got ∙ e)
            (Answered-IsCurrent 0 (done.0).watermark done.1
              (record_all-Answered 0 0 c n seq asked qs got f g)))

    hits_checked :
        (c : Cache) (n : ℕ) (qs : List Place)
        → items_of qs ≡ items
        → AllFine 0 qs
        → IsDeniedOrCurrent items (check_hits others clock key send (length items) c n qs)
    unfolding check_hits ask
    hits_checked c n qs e f =
        if_cases (IsDeniedOrCurrent items) (below_watermark (run c (others n)) qs)
          (λ _.
            let at = run (run c (others n)) (others (n + 1)) in
            let got = send (n + 1 + 1) (chosen true qs) (clock (n + 1 + 1)) in
            again_settled at (n + 1 + 1) (stamp at) (clock (n + 1)) qs got (failure got) e f (
              sends (n + 1 + 1) (chosen true qs)
                (subst (λ is. IsWithin is (chosen true qs)) e (chosen-IsWithin true qs))))
          (λ passed. inr (
            subst (λ is. AllAt (IsCurrent (run c (others n)).watermark) 0 is (decisions qs)) e
              (above 0 (run c (others n)) qs passed f)))

    misses_settled :
        (n : ℕ) (c : Cache) (m seq asked : ℕ) (qs : List Place) (got : List Decision)
        (x : Option (Reason × ℕ))
        → items_of qs ≡ items
        → AllFine 0 qs
        → Sent (chosen false qs) got
        → IsDeniedOrCurrent items (
            after_misses others clock key send
              (length items)
              n
              (settle others clock key send c m seq asked false qs got x))
    misses_settled n c m seq asked qs got (some (r, status)) e f g = inl (r, status, refl)
    misses_settled n c m seq asked qs got none e f g =
        let done = record_all others clock key send c m seq asked false qs got in
        hits_checked done.0 n done.1 (items_of-record_all c m seq asked false qs got ∙ e)
          (record_all-AllFine 0 0 c m seq asked qs got f g)

    misses_asked :
        (n : ℕ) (c : Cache) (m : ℕ) (qs : List Place) (misses : List (Str × Request))
        → items_of qs ≡ items
        → AllFine 0 qs
        → IsDeniedOrCurrent items (
            after_misses others clock key send
              (length items)
              n
              (ask_some others clock key send misses c m qs))
    unfolding ask
    misses_asked n c m qs [] e f = hits_checked c n qs e f
    misses_asked n c m qs (i ∷ is) e f =
        let at = run c (others m) in
        let got = send (m + 1) (chosen false qs) (clock (m + 1)) in
        misses_settled n at (m + 1) (stamp at) (clock m) qs got (failure got) e f (
          sends (m + 1) (chosen false qs)
            (subst (λ is. IsWithin is (chosen false qs)) e (chosen-IsWithin false qs)))

  -- A lookup of the call, in a cache that it and others have brought from `c`, serves a hit of its item.
  module _ (Good : Cache → Type 0) (keeps : (c : Cache) (n : ℕ) → Good c → Good (run c (others n)))
      (looks : (c : Cache) (k now : ℕ) → Good c → Good (get c k now).0)
      (serves : (c : Cache) (n : ℕ) (item : Str × Request) (d : Decision)
        → Good c
        → (get c (key item.1) (clock n)).1 ≡ some d
        → Hit n item d) where
    items_of-read_all :
        (c : Cache) (n : ℕ) (items : List (Str × Request))
        → items_of (read_all others clock key send c n items).1 ≡ items
    unfolding read_all
    items_of-read_all c n [] = refl
    items_of-read_all c n ((minted, req) ∷ items) =
        placed_item (get (run c (others n)) (key req) (clock n)).1
          (items_of-read_all (get (run c (others n)) (key req) (clock n)).0 (suc n) items)
      where
        placed_item :
            (x : Option Decision)
            → items_of
                (read_all others clock key send
                  (get (run c (others n)) (key req) (clock n)).0
                  (suc n)
                  items).1
              ≡ items
            → ◌≡◌ {A = List (Str × Request)}
                ((placed (minted, req) x).item
                  ∷ items_of
                      (read_all others clock key send
                        (get (run c (others n)) (key req) (clock n)).0
                        (suc n)
                        items).1)
                ((minted, req) ∷ items)
        placed_item none h = ap (λ is. (minted, req) ∷ is) h
        placed_item (some d) h = ap (λ is. (minted, req) ∷ is) h

    read_all-AllFine :
        (c : Cache) (n : ℕ) (items : List (Str × Request))
        → Good c
        → AllFine n (read_all others clock key send c n items).1
    unfolding read_all
    read_all-AllFine c n [] good = tt
    read_all-AllFine c n ((minted, req) ∷ items) good = (
      place_fine (get (run c (others n)) (key req) (clock n)).1 refl,
      read_all-AllFine (get (run c (others n)) (key req) (clock n)).0 (suc n) items
          (looks (run c (others n)) (key req) (clock n) (keeps c n good)),
    )
      where
        place_fine :
            (x : Option Decision)
            → (get (run c (others n)) (key req) (clock n)).1 ≡ x
            → Fine n (placed (minted, req) x)
        place_fine none e = inr (λ a. absurd (ground arith))
        place_fine (some d) e =
            inl (refl, serves (run c (others n)) n (minted, req) d (keeps c n good) e)

    -- Whatever other callers do in between, DecideBatch denies its whole batch for one reason, or answers each
    -- item at its own position, and there an allow is an answer to that item, or a hit that its lookup served
    -- and that is not below the watermark of the cache the call leaves.
    pub batch_sections-IsDeniedOrCurrent :
        (c : Cache) (items : List (Str × Request))
        → Good c
        → ((n : ℕ) (asked : List (Str × Request))
            → IsWithin items asked
            → Sent asked (send n asked (clock n)))
        → IsDeniedOrCurrent items (batch_sections others clock key send c items)
    unfolding batch_sections
    batch_sections-IsDeniedOrCurrent c items good sends =
        let seen = read_all others clock key send c 0 items in
        misses_asked items sends (length items + length items + 2) seen.0 (length items) seen.1
          (chosen false seen.1) (items_of-read_all c 0 items) (read_all-AllFine c 0 items good)
