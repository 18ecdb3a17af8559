-- ===== src/Pep/Client/Answers.antt =====
-- What stands behind an answer of the client (pep/client.go, Decide).
use dev_health_go.Base.{
  ℕ, Str, ◌≤◌, ◌+◌, ◌≡◌, refl, length, true, Option, none, some, ◌⊎◌, inl, inr, if_cases, not,
  arith,
}
use dev_health_go.Pep.Json.{Value}
use dev_health_go.Pep.Checked.{Checked, ok, fail_status, deny}
use dev_health_go.Pep.Decision.{Decision, local}
use dev_health_go.Pep.Request.{Request, valid, wire}
use dev_health_go.Pep.Wire.{parse_decision}
use dev_health_go.Pep.Wire.Sound.{
  IsVerdictFor, parse_decision-IsVerdictFor, parse_decision-uncaused,
}
use dev_health_go.Pep.Client

-- The body of a response with status 200, whole and no longer than the limit.
pub record IsWhole (x : Client.Exchange) (limit : ℕ) (raw : Str) : Type 0 where
  pub response : Client.Response
  pub replied : x.reply ≡ inr response
  pub status : response.status ≡ 200
  pub body : response.body (limit + 1) ≡ inr raw
  pub short : length raw ≤ limit

pub post-IsWhole :
    (before : Client.ContextError) (x : Client.Exchange) (limit : ℕ) (raw : Str)
    → Client.post before x limit ≡ ok raw
    → IsWhole x limit raw
unfolding Client.post Client.read_response
post-IsWhole Client.was_canceled x limit raw h = absurd (ground arith)
post-IsWhole Client.deadline_exceeded x limit raw h = absurd (ground arith)
post-IsWhole Client.live x limit raw h = from_reply x.reply refl
  where
    from_reply : (y : Client.TransportError ⊎ Client.Response) → x.reply ≡ y → IsWhole x limit raw
    from_reply (inl e) p = absurd (ground arith)
    from_reply (inr r) p = record {
      response = r;
      replied = p;
      status = ground arith;
      body = ground arith;
      short = ground arith;
    }

module _ (marshal : Value → Option Str) (exchange : Str → Str → Client.Exchange)
    (read : Str → Option Value) where
  -- What stands behind an allow: a ready client, a valid request, its document marshalled and sent,
  -- and a whole answer with status 200 that reads as the PDP's verdict for the request.
  pub record IsAllowed (client : Option Client.Client) (minted : Str) (req : Request) (now : ℕ)
      (d : Decision) : Type 0 where
    pub asker : Client.Client
    pub configured : client ≡ some asker
    pub is_ready : Client.ready (some asker) ≡ true
    pub is_valid : valid req ≡ true
    pub document : Str
    pub marshalled : marshal (wire asker.service minted req) ≡ some document
    pub raw : Str
    pub whole : IsWhole (exchange asker.single document) Client.max_single_body raw
    pub answered : d ≡ parse_decision (read raw) req now
    pub verdict : IsVerdictFor req now d

  ask_single-IsWhole :
      (c : Client.Client) (ctx : Client.ContextError) (minted : Str) (req : Request) (raw : Str)
      → Client.ask_single marshal exchange read c ctx minted req ≡ ok raw
      → (body : Str) × (marshal (wire c.service minted req) ≡ some body)
        × IsWhole (exchange c.single body) Client.max_single_body raw
  unfolding Client.ask_single
  ask_single-IsWhole c ctx minted req raw h = from_body (marshal (wire c.service minted req)) refl
    where
      from_body :
          (y : Option Str)
          → marshal (wire c.service minted req) ≡ y
          → (body : Str) × (marshal (wire c.service minted req) ≡ some body)
            × IsWhole (exchange c.single body) Client.max_single_body raw
      from_body none p = absurd (ground arith)
      from_body (some body) p = (
        body,
        p,
        post-IsWhole ctx (exchange c.single body) Client.max_single_body raw (ground arith),
      )

  -- An allow of Decide has behind it a ready client, a valid request, its document marshalled and
  -- sent, and a whole answer with status 200 within the limit that reads as the PDP's verdict for
  -- the request.
  pub decide-IsAllowed :
      (client : Option Client.Client) (ctx : Option Client.ContextError) (minted : Str)
      (req : Request) (now : ℕ)
      → (Client.decide marshal exchange read client ctx minted req now).allowed ≡ true
      → IsAllowed client minted req now
          (Client.decide marshal exchange read client ctx minted req now)
  unfolding Client.decide deny local
  decide-IsAllowed none ctx minted req now h = absurd (ground arith)
  decide-IsAllowed (some c) none minted req now h = absurd (ground arith)
  decide-IsAllowed (some c) (some ctx) minted req now h =
      if_cases (λ d. d.allowed ≡ true → IsAllowed (some c) minted req now d)
        (not (Client.ready (some c))) (λ _ a. absurd (ground arith))
        (λ r.
          if_cases (λ d. d.allowed ≡ true → IsAllowed (some c) minted req now d) (not (valid req))
            (λ _ a. absurd (ground arith))
            (λ v.
              from_answer (Client.ask_single marshal exchange read c ctx minted req) (ground arith)
                (ground arith) refl))
        h
    where
      from_answer :
          (x : Checked Str)
          → Client.ready (some c) ≡ true
          → valid req ≡ true
          → Client.ask_single marshal exchange read c ctx minted req ≡ x
          → (Client.answer marshal exchange read x req now).allowed ≡ true
          → IsAllowed (some c) minted req now (Client.answer marshal exchange read x req now)
      from_answer (fail_status r status) ready ok_request asked a = absurd (ground arith)
      from_answer (ok raw) ready ok_request asked a =
          let (document, marshalled, whole) = ask_single-IsWhole c ctx minted req raw asked in
          record {
            asker = c;
            configured = refl;
            is_ready = ready;
            is_valid = ok_request;
            document = document;
            marshalled = marshalled;
            raw = raw;
            whole = whole;
            answered = refl;
            verdict =
                parse_decision-IsVerdictFor (read raw) req now
                  (parse_decision-uncaused (read raw) req now a);
          }
