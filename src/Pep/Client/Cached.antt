-- ===== src/Pep/Client/Cached.antt =====
-- pep/cache.go: the calls of the cached client, from one caller's side. Between the sections that
-- hold the mutex other callers' sections may run: they are the arguments `before_miss` and
-- `in_flight`, and their calls may be Decide or DecideBatch with any answers. `exchange` is what the
-- transport gives to this one call. strconv.Quote and SHA-256 are parameters.
use dev_health_go.Base.{
  ℕ, Str, codes, ◌++◌, ℕ, ◌≡◌, refl, Bool, true, false, Option, none, some, ◌⊎◌, inl, inr, if_cases,
  not, arith, List, [], ◌∷◌, All, All-take, All-drop, if◌then◌else◌, map, subst, ap, ◌||◌,
}
use mathlib.Core.List.{Memᴰ}
use dev_health_go.Pep.Json.{Value}
use dev_health_go.Pep.Checked.{deny}
use dev_health_go.Pep.Decision.{Decision, local}
use dev_health_go.Pep.Decision.Reasons.{local_invalid, not_configured}
use dev_health_go.Pep.Request.{Request, valid}
use dev_health_go.Pep.Cache.{Cache, get, stamp, observe, new_cached_client}
use dev_health_go.Pep.Cache.Invariant.{Inv, Inv-mono, get-Inv, observe-Inv}
use dev_health_go.Pep.Cache.Run.{
  Call, observes, run, Vouches, Vouches-mono, Vouches-Answered, Answered, run-Inv, new-Inv,
  IsGoodHit, get-IsGoodHit,
}
use dev_health_go.Pep.Client
use dev_health_go.Pep.Client.Answers.{IsAllowed, decide-IsAllowed}

abbrev comma_join : List Str → Str
comma_join [] = []
comma_join (s ∷ []) = s
comma_join (s ∷ (t ∷ ss)) = s ++ codes "," ++ comma_join (t ∷ ss)

-- `cacheKey`
unfoldable pub cache_key : (Str → Str) → (Str → ℕ) → Request → ℕ
cache_key quote digest r = digest (
    comma_join (
      map quote (
        r.principal_reference ∷ r.action ∷ r.resource_type ∷ r.resource_key ∷ r.organization_id
        ∷ [])))

Mem-append : {A : Type 0} (a : A) (xs ys : List A) → Memᴰ a xs → Memᴰ a (xs ++ ys)
Mem-append a [] ys m = elim m [ ]
Mem-append a (x ∷ xs) ys (Memᴰ.head e) = Memᴰ.head e
Mem-append a (x ∷ xs) ys (Memᴰ.tail m) = Memᴰ.tail (Mem-append a xs ys m)

Answered-append :
    (xs ys : List Call) (key : ℕ) (d : Decision) (asked : ℕ)
    → Answered xs key d asked
    → Answered (xs ++ ys) key d asked
Answered-append xs ys key d asked (stamp, now, m) =
    (stamp, now, Mem-append (observes key d stamp asked now) xs ys m)

-- The clock's readings during one call.
pub record Readings : Type 0 where
  pub at_get : ℕ
  pub at_stamp : ℕ
  pub at_answer : ℕ
  pub at_observe : ℕ

module _ (marshal : Value → Option Str) (exchange : Str → Str → Client.Exchange)
    (read : Str → Option Value) (quote : Str → Str) (digest : Str → ℕ)
    (client : Option Client.Client) where
  abbrev answer_of : Option Client.ContextError → Str → Request → ℕ → Decision
  answer_of ctx minted req now = Client.decide marshal exchange read client ctx minted req now

  -- The miss of `Decide`: the stamp, the call, and the recording of its answer.
  abbrev pub miss :
      Cache → Option Client.ContextError → Str → Request → Readings → List Call → Cache × Decision
  miss c ctx minted req t in_flight =
      let d = answer_of ctx minted req t.at_answer in
      (
        observe (run c in_flight) (cache_key quote digest req) d (stamp c) t.at_stamp t.at_observe,
        d,
      )

  abbrev pub lookup_or_miss :
      Cache × Option Decision
      → Option Client.ContextError
      → Str
      → Request
      → Readings
      → List Call
      → List Call
      → Cache × Decision
  lookup_or_miss (c, some d) ctx minted req t before_miss in_flight = (c, d)
  lookup_or_miss (c, none) ctx minted req t before_miss in_flight =
      miss (run c before_miss) ctx minted req t in_flight

  abbrev has_context : Option Client.ContextError → Bool
  has_context none = false
  has_context (some ctx) = true

  -- `CachedClient.Decide`
  unfoldable pub cached_decide :
      Cache
      → Option Client.ContextError
      → Str
      → Request
      → Readings
      → List Call
      → List Call
      → Cache × Decision
  cached_decide c ctx minted req t before_miss in_flight =
      if not (Client.ready client)
      then (c, deny not_configured 0)
      else if not (has_context ctx) || not (valid req)
      then (c, deny local_invalid 0)
      else lookup_or_miss (get c (cache_key quote digest req) t.at_get) ctx minted req t before_miss
          in_flight

  module _ (ctx : Option Client.ContextError) (minted : Str) (req : Request) (t : Readings) where
    -- The answer of this call: under its key, asked when its stamp was taken, and the PDP's own where it allows.
    pub record IsOwn (key : ℕ) (d : Decision) (asked : ℕ) : Type 0 where
      pub for_key : key ≡ cache_key quote digest req
      pub at_stamp : asked ≡ t.at_stamp
      pub answered : d ≡ answer_of ctx minted req t.at_answer
      pub allowed :
          d.allowed ≡ true → IsAllowed marshal exchange read client minted req t.at_answer d

    -- Recorded by the history for the key, or the answer of this call.
    abbrev pub IsRecorded : List Call → ℕ → Decision → ℕ → Type 0
    IsRecorded history key d asked = Answered history key d asked ⊎ IsOwn key d asked

    -- What an allow is: a hit that the history recorded, or the PDP's answer now.
    abbrev pub IsBacked : List Call → Cache → Decision → Type 0
    IsBacked history c d =
        IsGoodHit (Answered history) c (cache_key quote digest req) t.at_get d
        ⊎ IsAllowed marshal exchange read client minted req t.at_answer d

    abbrev pub IsSafe : List Call → List Call → Cache → Cache × Decision → Type 0
    IsSafe history others c (after, d) =
        Inv (IsRecorded (history ++ others)) after × (d.allowed ≡ true → IsBacked history c d)

    own : IsOwn (cache_key quote digest req) (answer_of ctx minted req t.at_answer) t.at_stamp
    own = record {
      for_key = refl;
      at_stamp = refl;
      answered = refl;
      allowed = decide-IsAllowed marshal exchange read client ctx minted req t.at_answer;
    }

    module _ (history : List Call) (before_miss in_flight : List Call) (c : Cache)
        (known : Inv (Answered history) c) where
      abbrev Kept : ℕ → Decision → ℕ → Type 0
      Kept = IsRecorded (history ++ (before_miss ++ in_flight))

      vouched : All (Vouches Kept) (history ++ (before_miss ++ in_flight))
      vouched =
          Vouches-mono (Answered (history ++ (before_miss ++ in_flight))) Kept (λ k d a. inl)
            (history ++ (before_miss ++ in_flight))
            (Vouches-Answered (history ++ (before_miss ++ in_flight)))

      others : All (Vouches Kept) (before_miss ++ in_flight)
      others = All-drop (Vouches Kept) history (before_miss ++ in_flight) vouched

      kept : Inv Kept c
      kept =
          Inv-mono (Answered history) Kept
            (λ k d a h. inl (Answered-append history (before_miss ++ in_flight) k d a h)) c known

      lookup_or_miss-IsSafe : IsSafe history (before_miss ++ in_flight) c (
          lookup_or_miss
            (get c (cache_key quote digest req) t.at_get)
            ctx
            minted
            req
            t
            before_miss
            in_flight)
      lookup_or_miss-IsSafe = from_get (get c (cache_key quote digest req) t.at_get) refl
        where
          from_get :
              (x : Cache × Option Decision)
              → get c (cache_key quote digest req) t.at_get ≡ x
              → IsSafe history
                  (before_miss ++ in_flight)
                  c
                  (lookup_or_miss x ctx minted req t before_miss in_flight)
          from_get (after, some d) h = (
            subst (λ x. Inv Kept x.0) h (get-Inv Kept c (cache_key quote digest req) t.at_get kept),
            λ _. inl (
                get-IsGoodHit (Answered history) c (cache_key quote digest req) t.at_get d known
                  (ap (λ x. x.1) h)),
          )
          from_get (after, none) h =
              let looked =
                subst (λ x. Inv Kept x.0) h
                  (get-Inv Kept c (cache_key quote digest req) t.at_get kept) in
              let asked =
                run-Inv Kept after before_miss
                  (All-take (Vouches Kept) before_miss in_flight others) looked in
              let flown =
                run-Inv Kept (run after before_miss) in_flight
                  (All-drop (Vouches Kept) before_miss in_flight others) asked in
              (
                observe-Inv Kept (run (run after before_miss) in_flight)
                    (cache_key quote digest req) (answer_of ctx minted req t.at_answer)
                    (stamp (run after before_miss)) t.at_stamp t.at_observe (inr own) flown,
                λ a.
                    inr
                      (decide-IsAllowed marshal exchange read client ctx minted req t.at_answer a),
              )

  -- After any history of a new cache, and whatever other callers record meanwhile, a call of Decide leaves a
  -- cache in which every allow was recorded by some caller for its key, or is this call's own, under the key of
  -- its request and as of its stamp; and an allow it returns is either one that the history recorded for the
  -- request's key, served under the conditions of a hit, or the PDP's own allow for this request now.
  pub cached_decide-IsSafe :
      (entries ttl : ℕ) (c : Cache) (history : List Call) (ctx : Option Client.ContextError)
      (minted : Str) (req : Request) (t : Readings) (before_miss in_flight : List Call)
      → new_cached_client entries ttl ≡ some c
      → IsSafe ctx minted req t history
          (before_miss ++ in_flight)
          (run c history)
          (cached_decide (run c history) ctx minted req t before_miss in_flight)
  unfolding cached_decide deny local
  cached_decide-IsSafe entries ttl c history ctx minted req t before_miss in_flight made =
      let known : Inv (Answered history) (run c history) =
        run-Inv (Answered history) c history (Vouches-Answered history)
          (new-Inv (Answered history) entries ttl c made) in
      let all_kept = kept ctx minted req t history before_miss in_flight (run c history) known in
      if_cases (IsSafe ctx minted req t history (before_miss ++ in_flight) (run c history))
        (not (Client.ready client)) (λ _. (all_kept, λ a. absurd (ground arith)))
        λ _.
          if_cases (IsSafe ctx minted req t history (before_miss ++ in_flight) (run c history))
            (not (has_context ctx) || not (valid req)) (λ _. (all_kept, λ a. absurd (ground arith)))
            (λ _.
              lookup_or_miss-IsSafe ctx minted req t history before_miss in_flight (run c history)
                known)
