-- ===== src/Pep/Client/Batch.antt =====
-- A batch of questions is answered whole or denied whole (pep/client.go, DecideBatch).
use dev_health_go.Base.{
  ℕ, Str, ◌≤◌, ◌≡◌, refl, length, ltb, true, Option, none, some, ◌⊎◌, inl, inr, if_cases, not, ◌||◌,
  arith, List, [], ◌∷◌, all,
}
use dev_health_go.Pep.Json.{Value, Members}
use dev_health_go.Pep.Checked.{Checked, ok, fail_status}
use dev_health_go.Pep.Decision.{Decision}
use dev_health_go.Pep.Decision.Reasons.{Reason, malformed, local_invalid, not_configured}
use dev_health_go.Pep.Request.{Request, valid, max_batch, batch_body}
use dev_health_go.Pep.Wire.{deny_all, read_batch}
use dev_health_go.Pep.Wire.Batch.{Answers, parse_batch_whole}
use dev_health_go.Pep.Client
use dev_health_go.Pep.Client.Answers.{IsWhole, post-IsWhole}

module _ (marshal : Value → Option Str) (exchange : Str → Str → Client.Exchange)
    (read : Str → Option Value) where
  -- What stands behind a batch that is answered: a ready client, at most 100 requests, all valid, their
  -- document marshalled and sent, a whole answer with status 200, and its entries, one to a request, each
  -- answering the request at its own position.
  pub record IsAnswered (client : Option Client.Client) (items : List (Str × Request)) (now : ℕ)
      (ds : List Decision) : Type 0 where
    pub asker : Client.Client
    pub configured : client ≡ some asker
    pub is_ready : Client.ready (some asker) ≡ true
    pub few : length (Client.requests marshal exchange read items) ≤ max_batch
    pub are_valid : all valid (Client.requests marshal exchange read items) ≡ true
    pub document : Str
    pub marshalled : marshal (batch_body asker.service items) ≡ some document
    pub raw : Str
    pub whole : IsWhole (exchange asker.batch document) Client.max_batch_body raw
    pub entries : List (ℕ × Members)
    pub read_back :
        read_batch (read raw) (length (Client.requests marshal exchange read items)) ≡ ok entries
    pub answers : Answers now 0 entries (Client.requests marshal exchange read items) ds

  -- The whole batch is denied for one local reason, or it is answered whole.
  abbrev pub IsAllOrNothing :
      Option Client.Client → List (Str × Request) → ℕ → List Decision → Type 0
  IsAllOrNothing client items now ds =
      ((r : Reason) × (status : ℕ) × (ds
          ≡ deny_all r status (length (Client.requests marshal exchange read items))))
      ⊎ IsAnswered client items now ds

  ask_batch-IsWhole :
      (c : Client.Client) (ctx : Client.ContextError) (items : List (Str × Request)) (raw : Str)
      → Client.ask_batch marshal exchange read c ctx items ≡ ok raw
      → (body : Str) × (marshal (batch_body c.service items) ≡ some body)
        × IsWhole (exchange c.batch body) Client.max_batch_body raw
  unfolding Client.ask_batch
  ask_batch-IsWhole c ctx items raw h = from_body (marshal (batch_body c.service items)) refl
    where
      from_body :
          (y : Option Str)
          → marshal (batch_body c.service items) ≡ y
          → (body : Str) × (marshal (batch_body c.service items) ≡ some body)
            × IsWhole (exchange c.batch body) Client.max_batch_body raw
      from_body none p = absurd (ground arith)
      from_body (some body) p = (
        body,
        p,
        post-IsWhole ctx (exchange c.batch body) Client.max_batch_body raw (ground arith),
      )

  -- DecideBatch denies every request for one local reason; or the client is ready, the requests are at most
  -- 100 and all valid, their document was sent, and each is answered by the PDP's verdict from the entry of
  -- its own position in the whole answer with status 200 that came back.
  pub decide_batch-IsAllOrNothing :
      (client : Option Client.Client) (ctx : Option Client.ContextError)
      (items : List (Str × Request)) (now : ℕ)
      → IsAllOrNothing client items now
          (Client.decide_batch marshal exchange read client ctx items now)
  unfolding Client.decide_batch deny_all
  decide_batch-IsAllOrNothing client ctx [] now = inl (malformed, 0, refl)
  decide_batch-IsAllOrNothing none ctx (i ∷ is) now = inl (not_configured, 0, refl)
  decide_batch-IsAllOrNothing (some c) ctx (i ∷ is) now =
      if_cases (IsAllOrNothing (some c) (i ∷ is) now) (not (Client.ready (some c)))
        (λ _. inl (not_configured, 0, refl)) (λ r. in_context ctx (ground arith))
    where
      reqs : List Request
      reqs = Client.requests marshal exchange read (i ∷ is)

      from_answer :
          (x : Checked Str)
          → Client.ready (some c) ≡ true
          → length reqs ≤ max_batch
          → all valid reqs ≡ true
          → (ctx : Client.ContextError) → Client.ask_batch marshal exchange read c ctx (i ∷ is) ≡ x
          → IsAllOrNothing
              (some c)
              (i ∷ is)
              now
              (Client.answers_batch marshal exchange read x reqs now)
      from_answer (fail_status r status) ready few ok_all ctx asked = inl (r, status, refl)
      from_answer (ok raw) ready few ok_all ctx asked =
          let (document, marshalled, whole) = ask_batch-IsWhole c ctx (i ∷ is) raw asked in
          elim (parse_batch_whole (read raw) reqs now) [
            | inl (r, status, e) ↦ inl (r, status, e)
            | inr (es, read_back, a) ↦ inr record {
              asker = c;
              configured = refl;
              is_ready = ready;
              few = few;
              are_valid = ok_all;
              document = document;
              marshalled = marshalled;
              raw = raw;
              whole = whole;
              entries = es;
              read_back = read_back;
              answers = a;
            }
          ]

      in_context :
          (ctx : Option Client.ContextError)
          → Client.ready (some c) ≡ true
          → IsAllOrNothing
              (some c)
              (i ∷ is)
              now
              (Client.batch_ready marshal exchange read c ctx (i ∷ is) now)
      in_context none ready = inl (local_invalid, 0, refl)
      in_context (some ctx) ready =
          if_cases (IsAllOrNothing (some c) (i ∷ is) now)
            (ltb max_batch (length reqs) || not (all valid reqs))
            (λ _. inl (local_invalid, 0, refl))
            (λ h.
              from_answer (Client.ask_batch marshal exchange read c ctx (i ∷ is)) ready
                (ground arith) (ground arith) ctx refl)
