-- ===== src/Pep/Client/CachedBatch.antt =====
-- DecideBatch of the cached client, with ask and belowWatermark (pep/cache.go). The call's sections are
-- numbered from 0; what other callers do before the n-th is `others n`, the clock then reads `clock n`, and
-- where it is a call of the PDP the transport gives `exchange n`.
use dev_health_go.Base.{
  ℕ, suc, ◌+◌, Str, List, [], ◌∷◌, Bool, true, false, not, ◌&&◌, ◌||◌, ltb, all, any, length,
  Option, none, some, ◌⊎◌, inl, inr, if◌then◌else◌,
}
use dev_health_go.Pep.Json.{Value}
use dev_health_go.Pep.Decision.{Decision, Cause, error, err_of, is_local_deny, zero_decision}
use dev_health_go.Pep.Decision.Reasons.{Reason, local_invalid, not_configured, no_decision}
use dev_health_go.Pep.Wire.{deny_all}
use dev_health_go.Pep.Request.{Request, valid, max_batch}
use dev_health_go.Pep.Cache.{Cache, get, stamp, observe}
use dev_health_go.Pep.Cache.Run.{Call, run}
use dev_health_go.Pep.Client
use dev_health_go.Pep.Client.Cached.{cache_key}

-- One item of the batch: its request with the id minted for it, whether the cache answered it, and what
-- stands in `out`.
pub record Place : Type 0 where
  pub item : Str × Request
  pub is_hit : Bool
  pub decision : Decision

abbrev pub placed : Str × Request → Option Decision → Place
placed item none = record { item = item; is_hit = false; decision = zero_decision }
placed item (some d) = record { item = item; is_hit = true; decision = d }

abbrev pub same : Bool → Bool → Bool
same true b = b
same false b = not b

-- The items at `idx`: the hits, or the misses.
abbrev pub chosen : Bool → List Place → List (Str × Request)
chosen hits [] = []
chosen hits (q ∷ qs) =
    let rest = chosen hits qs in if same hits q.is_hit then q.item ∷ rest else rest

abbrev pub decisions : List Place → List Decision
decisions [] = []
decisions (q ∷ qs) = q.decision ∷ decisions qs

-- The error by which a local deny among the answers denies the batch.
abbrev cause_of : Option Cause → Reason × ℕ
cause_of (some (error r status)) = (r, status)
cause_of _ = (no_decision, 0)

abbrev pub failure : List Decision → Option (Reason × ℕ)
failure [] = none
failure (d ∷ ds) =
    let rest = failure ds in if is_local_deny d then some (cause_of (err_of d)) else rest

-- `belowWatermark`
unfoldable pub below_watermark : Cache → List Place → Bool
below_watermark c qs = any (λ q. q.is_hit && ltb q.decision.policy_revision c.watermark) qs

module _ (others : ℕ → List Call) (clock : ℕ → ℕ) (key : Request → ℕ)
    (send : ℕ → List (Str × Request) → ℕ → List Decision) where
  -- The loop over the requests, from section n on.
  unfoldable pub read_all : Cache → ℕ → List (Str × Request) → Cache × List Place
  read_all c n [] = (c, [])
  read_all c n ((minted, req) ∷ items) =
      let seen = get (run c (others n)) (key req) (clock n) in
      let rest = read_all seen.0 (suc n) items in (rest.0, placed (minted, req) seen.1 ∷ rest.1)

  -- The recording of the answers in the cache and in `out`, one to each chosen item.
  unfoldable pub record_all :
      Cache → ℕ → ℕ → ℕ → Bool → List Place → List Decision → Cache × List Place
  record_all c n seq asked hits [] got = (c, [])
  record_all c n seq asked hits (q ∷ qs) [] = (c, q ∷ qs)
  record_all c n seq asked hits (q ∷ qs) (d ∷ ds) =
      if same hits q.is_hit
      then (let rest =
            record_all (observe (run c (others n)) (key (q.item).1) d seq asked (clock n)) (suc n)
              seq asked hits qs ds in
          (rest.0, record q { decision = d } ∷ rest.1))
      else (let rest = record_all c n seq asked hits qs (d ∷ ds) in (rest.0, q ∷ rest.1))

  abbrev pub settle :
      Cache
      → ℕ
      → ℕ
      → ℕ
      → Bool
      → List Place
      → List Decision
      → Option (Reason × ℕ)
      → Cache × ((Reason × ℕ) ⊎ List Place)
  settle c n seq asked hits qs got (some err) = (run c (others n), inl err)
  settle c n seq asked hits qs got none =
      let done = record_all c n seq asked hits qs got in (done.0, inr done.1)

  -- `ask`: the stamp at section n, the call at n + 1, and the recording from there.
  unfoldable pub ask : Cache → ℕ → Bool → List Place → Cache × ((Reason × ℕ) ⊎ List Place)
  unfolding record_all
  ask c n hits qs =
      let at = run c (others n) in
      let got = send (n + 1) (chosen hits qs) (clock (n + 1)) in
      settle at (n + 1) (stamp at) (clock n) hits qs got (failure got)

  -- `if len(misses) > 0`
  abbrev pub ask_some :
      List (Str × Request) → Cache → ℕ → List Place → Cache × ((Reason × ℕ) ⊎ List Place)
  ask_some [] c n qs = (c, inr qs)
  ask_some (i ∷ is) c n qs = ask c n false qs

  abbrev pub ask_misses : Cache → ℕ → List Place → Cache × ((Reason × ℕ) ⊎ List Place)
  ask_misses c n qs = ask_some (chosen false qs) c n qs

  abbrev pub answer_with : ℕ → Cache × ((Reason × ℕ) ⊎ List Place) → Cache × List Decision
  answer_with n (c, inl (r, status)) = (c, deny_all r status n)
  answer_with n (c, inr qs) = (c, decisions qs)

  -- The check of the hits at section n, and the call that asks them again.
  unfoldable pub check_hits : ℕ → Cache → ℕ → List Place → Cache × List Decision
  unfolding below_watermark ask
  check_hits count c n qs =
      if below_watermark (run c (others n)) qs
      then answer_with count (ask (run c (others n)) (n + 1) true qs)
      else (run c (others n), decisions qs)

  abbrev pub after_misses : ℕ → ℕ → Cache × ((Reason × ℕ) ⊎ List Place) → Cache × List Decision
  after_misses count n (c, inl (r, status)) = (c, deny_all r status count)
  after_misses count n (c, inr qs) = check_hits count c n qs

  -- DecideBatch from its first section on.
  unfoldable pub batch_sections : Cache → List (Str × Request) → Cache × List Decision
  unfolding read_all check_hits
  batch_sections c items =
      let seen = read_all c 0 items in
      after_misses (length items) (length items + length items + 2)
        (ask_misses seen.0 (length items) seen.1)

module _ (marshal : Value → Option Str) (exchange : ℕ → Str → Str → Client.Exchange)
    (read : Str → Option Value) (quote : Str → Str) (digest : Str → ℕ)
    (client : Option Client.Client) (others : ℕ → List Call) (clock : ℕ → ℕ) where
  abbrev pub requests : List (Str × Request) → List Request
  requests items = Client.requests marshal (exchange 0) read items

  abbrev pub batch_in :
      Cache → Option Client.ContextError → List (Str × Request) → Cache × List Decision
  batch_in c none items = (c, deny_all local_invalid 0 (length items))
  batch_in c (some ctx) items =
      if ltb max_batch (length items) || not (all valid (requests items))
      then (c, deny_all local_invalid 0 (length items))
      else batch_sections others clock (cache_key quote digest)
          (λ n. Client.decide_batch marshal (exchange n) read client (some ctx)) c items

  -- `CachedClient.DecideBatch`
  unfoldable pub cached_decide_batch :
      Cache → Option Client.ContextError → List (Str × Request) → Cache × List Decision
  unfolding batch_sections
  cached_decide_batch c ctx [] = (c, [])
  cached_decide_batch c ctx (i ∷ is) =
      if not (Client.ready client)
      then (c, deny_all not_configured 0 (length (i ∷ is)))
      else batch_in c ctx (i ∷ is)
