-- ===== src/Pep/Client/Current.antt =====
-- DecideBatch of the cached client, over the client of pep/client.go (pep/cache.go).
use dev_health_go.Base.{
  ℕ, suc, ◌+◌, ◌≡◌, ◌≤◌, refl, ap, sym, subst, ◌∙◌, Str, List, [], ◌∷◌, ◌++◌, true, not, ◌||◌, ltb,
  all, length, Option, none, some, ◌⊎◌, inl, inr, All, All-imp, All-append, arith, if_cases,
}
use mathlib.Core.List.{Memᴰ}
use dev_health_go.Pep.Json.{Value, Members}
use dev_health_go.Pep.Checked.{deny}
use dev_health_go.Pep.Decision.{Decision, local}
use dev_health_go.Pep.Decision.Reasons.{Reason, local_invalid, not_configured}
use dev_health_go.Pep.Request.{Request, valid, max_batch}
use dev_health_go.Pep.Cache.{Cache, get, new_cached_client}
use dev_health_go.Pep.Cache.Invariant.{Inv, Inv-mono, get-Inv}
use dev_health_go.Pep.Cache.Run.{
  Call, gets, step, run, Answered, Vouches-mono, Vouches-Answered, run-Inv, new-Inv, IsGoodHit,
  get-IsGoodHit,
}
use dev_health_go.Pep.Wire.{deny_all}
use dev_health_go.Pep.Wire.Batch.{Answers}
use dev_health_go.Pep.Client
use dev_health_go.Pep.Client.Places.{AllAt, Paired, AllAt-any, AllAt-imp, AllAt-Paired}
use dev_health_go.Pep.Client.Batch.{IsAnswered, decide_batch-IsAllOrNothing}
use dev_health_go.Pep.Client.Cached.{cache_key}
use dev_health_go.Pep.Client.CachedBatch.{cached_decide_batch, batch_in, batch_sections, requests}
use dev_health_go.Pep.Client.Watermark.{IsWithin, batch_sections-IsDeniedOrCurrent}

length-Answers :
    (now i : ℕ) (es : List (ℕ × Members)) (rs : List Request) (ds : List Decision)
    → Answers now i es rs ds
    → length ds ≡ length rs
length-Answers now i [] [] [] a = refl
length-Answers now i ((n, o) ∷ es) (r ∷ rs) (d ∷ ds) (e, f, g, a) =
    ap suc (length-Answers now (i + 1) es rs ds a)
length-Answers now i [] [] (d ∷ ds) a = absurd a
length-Answers now i [] (r ∷ rs) ds a = absurd a
length-Answers now i (e ∷ es) [] ds a = absurd a
length-Answers now i (e ∷ es) (r ∷ rs) [] a = absurd a

All-Mem : {A : Type 0} (xs : List A) → All (λ x. Memᴰ x xs) xs
All-Mem [] = tt
All-Mem (x ∷ xs) = (Memᴰ.head refl, All-imp (λ y m. Memᴰ.tail m) xs (All-Mem xs))

-- The sections of two histories, one after the other.
run-append : (c : Cache) (xs ys : List Call) → run (run c xs) ys ≡ run c (xs ++ ys)
unfolding run
run-append c [] ys = refl
run-append c (x ∷ xs) ys = run-append (step c x) xs ys

run-gets : (c : Cache) (key now : ℕ) → (get c key now).0 ≡ run c (gets key now ∷ [])
unfolding run step
run-gets c key now = refl

module _ (marshal : Value → Option Str) (exchange : ℕ → Str → Str → Client.Exchange)
    (read : Str → Option Value) (quote : Str → Str) (digest : Str → ℕ)
    (client : Option Client.Client) (others : ℕ → List Call) (clock : ℕ → ℕ)
    (history : List Call) where
  -- Recorded by the history, or by another caller before one of the call's sections.
  abbrev pub IsRecorded : ℕ → Decision → ℕ → Type 0
  IsRecorded key d asked =
      Answered history key d asked ⊎ ((n : ℕ) × Answered (others n) key d asked)

  -- A lookup, or a section of another caller.
  abbrev pub IsSection : Call → Type 0
  IsSection x = ((key : ℕ) × (now : ℕ) × (x ≡ gets key now)) ⊎ ((n : ℕ) × Memᴰ x (others n))

  -- A hit of the item's own request, at the reading of the clock of its section, in a cache that lookups
  -- and the sections of other callers have brought from `c`.
  pub record IsHit (c : Cache) (i : ℕ) (item : Str × Request) (d : Decision) : Type 0 where
    pub calls : List Call
    pub sections : All IsSection calls
    pub good : IsGoodHit IsRecorded (run c calls) (cache_key quote digest item.1) (clock i) d

  -- The PDP's answer to the item, at its position in a batch of some of the items, asked in one of the call's
  -- sections and answered whole.
  pub record IsAnswer (ctx : Option Client.ContextError) (items : List (Str × Request))
      (item : Str × Request) (d : Decision) : Type 0 where
    pub n : ℕ
    pub asked : List (Str × Request)
    pub within : IsWithin items asked
    pub whole :
        IsAnswered marshal
          (exchange n)
          read
          client
          asked
          (clock n)
          (Client.decide_batch marshal (exchange n) read client ctx asked (clock n))
    pub at_item :
        Paired item d asked
          (Client.decide_batch marshal (exchange n) read client ctx asked (clock n))

  abbrev pub IsSafe :
      Cache → Option Client.ContextError → List (Str × Request) → Cache × List Decision → Type 0
  IsSafe c ctx items x =
      ((r : Reason) × (status : ℕ) × (x.1 ≡ deny_all r status (length items)))
      ⊎ AllAt
          (λ i item d.
            d.allowed ≡ true
            → IsAnswer ctx items item d
              ⊎ (IsHit c i item d × ((x.0).watermark ≤ d.policy_revision)))
          0 items x.1

  module _ (ctx : Option Client.ContextError) (items : List (Str × Request)) where
    abbrev Fine : ℕ → Str × Request → Decision → Type 0
    Fine i item d = d.allowed ≡ true → IsAnswer ctx items item d

    deny_all-Fine :
        (r : Reason) (status i : ℕ) (asked : List (Str × Request))
        → AllAt Fine i asked (deny_all r status (length asked))
    unfolding deny_all deny local
    deny_all-Fine r status i [] = tt
    deny_all-Fine r status i (x ∷ asked) =
        (λ a. absurd (ground arith), deny_all-Fine r status (suc i) asked)

    length-requests :
        (n : ℕ) (asked : List (Str × Request))
        → length (Client.requests marshal (exchange n) read asked) ≡ length asked
    length-requests n [] = refl
    length-requests n ((m, r) ∷ asked) = ap suc (length-requests n asked)

    decide_batch-Fine :
        (n : ℕ) (asked : List (Str × Request))
        → IsWithin items asked
        → AllAt Fine 0 asked
            (Client.decide_batch marshal (exchange n) read client ctx asked (clock n))
    decide_batch-Fine n asked within =
        elim (decide_batch-IsAllOrNothing marshal (exchange n) read client ctx asked (clock n)) [
          | inl (r, status, e) ↦
              subst (AllAt Fine 0 asked)
                (sym (e ∙ ap (deny_all r status) (length-requests n asked)))
                (deny_all-Fine r status 0 asked)
          | inr whole ↦
              AllAt-imp (λ i x d. Paired x d asked ds) Fine
                (λ i x d paired a. record {
                  n = n;
                  asked = asked;
                  within = within;
                  whole = whole;
                  at_item = paired;
                })
                0 asked ds
                (AllAt-Paired (λ i x d. Unit {0}) 0 asked ds
                  (AllAt-any 0 asked ds (
                    length-Answers (clock n) 0 whole.entries
                      (Client.requests marshal (exchange n) read asked) ds whole.answers
                    ∙ length-requests n asked)))
        ]
      where
        ds : List Decision
        ds = Client.decide_batch marshal (exchange n) read client ctx asked (clock n)

  module _ (c : Cache) (known : Inv (Answered history) c) where
    -- A cache that sections have brought from `c`.
    record IsReached (h : Cache) : Type 0 where
      calls : List Call
      reached : h ≡ run c calls
      sections : All IsSection calls
      invariant : Inv IsRecorded h

    from_here : IsReached c
    unfolding run
    from_here = record {
      calls = [];
      reached = refl;
      sections = tt;
      invariant = Inv-mono (Answered history) IsRecorded (λ k d a. inl) c known;
    }

    IsReached-run : (h : Cache) (n : ℕ) → IsReached h → IsReached (run h (others n))
    IsReached-run h n r = record {
      calls = r.calls ++ others n;
      reached = ap (λ x. run x (others n)) r.reached ∙ run-append c r.calls (others n);
      sections =
          All-append IsSection r.calls (others n) r.sections
            (All-imp (λ x m. inr (n, m)) (others n) (All-Mem (others n)));
      invariant =
          run-Inv IsRecorded h (others n)
            (Vouches-mono (Answered (others n)) IsRecorded (λ k d a v. inr (n, v)) (others n)
              (Vouches-Answered (others n)))
            r.invariant;
    }

    IsReached-get : (h : Cache) (k now : ℕ) → IsReached h → IsReached (get h k now).0
    IsReached-get h k now r = record {
      calls = r.calls ++ (gets k now ∷ []);
      reached =
          run-gets h k now
          ∙ ap (λ x. run x (gets k now ∷ [])) r.reached
          ∙ run-append c r.calls (gets k now ∷ []);
      sections = All-append IsSection r.calls (gets k now ∷ []) r.sections (inl (k, now, refl), tt);
      invariant = get-Inv IsRecorded h k now r.invariant;
    }

    get-IsHit :
        (h : Cache) (n : ℕ) (item : Str × Request) (d : Decision)
        → IsReached h
        → (get h (cache_key quote digest item.1) (clock n)).1 ≡ some d
        → IsHit c n item d
    get-IsHit h n item d r e = record {
      calls = r.calls;
      sections = r.sections;
      good =
          subst (λ x. IsGoodHit IsRecorded x (cache_key quote digest item.1) (clock n) d) r.reached
            (get-IsGoodHit IsRecorded h (cache_key quote digest item.1) (clock n) d r.invariant e);
    }

    sections-IsSafe :
        (ctx : Option Client.ContextError) (items : List (Str × Request))
        → IsSafe c ctx items (
            batch_sections others clock
              (cache_key quote digest)
              (λ n. Client.decide_batch marshal (exchange n) read client ctx)
              c
              items)
    sections-IsSafe ctx items =
        batch_sections-IsDeniedOrCurrent others clock (cache_key quote digest)
          (λ n. Client.decide_batch marshal (exchange n) read client ctx) (IsHit c)
          (IsAnswer ctx items) IsReached IsReached-run IsReached-get get-IsHit c items from_here
          (decide_batch-Fine ctx items)

  -- After any history of a new cache, and whatever other callers do between its sections, DecideBatch denies
  -- its whole batch for one reason, or gives one decision to each item, at the item's own position. There an
  -- allow is the PDP's answer to that item in a batch of the items that is asked and answered whole; or it is
  -- a hit that the history or another caller recorded for the key of the item's request, served under the
  -- conditions of a hit at the item's lookup, and not below the watermark of the cache that the call leaves.
  pub cached_decide_batch-IsSafe :
      (entries ttl : ℕ) (c : Cache) (ctx : Option Client.ContextError)
      (items : List (Str × Request))
      → new_cached_client entries ttl ≡ some c
      → IsSafe (run c history) ctx items (
          cached_decide_batch marshal exchange read quote digest client others clock
            (run c history)
            ctx
            items)
  unfolding cached_decide_batch
  cached_decide_batch-IsSafe entries ttl c ctx [] made = inr tt
  cached_decide_batch-IsSafe entries ttl c ctx (i ∷ is) made =
      if_cases (IsSafe (run c history) ctx (i ∷ is)) (not (Client.ready client))
        (λ _. inl (not_configured, 0, refl)) (λ _. in_context ctx)
    where
      known : Inv (Answered history) (run c history)
      known =
          run-Inv (Answered history) c history (Vouches-Answered history)
            (new-Inv (Answered history) entries ttl c made)

      in_context :
          (ctx : Option Client.ContextError)
          → IsSafe (run c history) ctx (i ∷ is) (
              batch_in marshal exchange read quote digest client others clock
                (run c history)
                ctx
                (i ∷ is))
      in_context none = inl (local_invalid, 0, refl)
      in_context (some x) =
          if_cases (IsSafe (run c history) (some x) (i ∷ is))
            (ltb max_batch (length (i ∷ is))
              || not (
                  all valid
                    (requests marshal exchange read quote digest client others clock (i ∷ is))))
            (λ _. inl (local_invalid, 0, refl))
            (λ _. sections-IsSafe (run c history) known (some x) (i ∷ is))
