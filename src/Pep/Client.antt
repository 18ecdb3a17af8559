-- ===== src/Pep/Client.antt =====
-- pep/client.go: the client that asks the PDP. What net/url, net/http, mime, encoding/json and the
-- context give is data: a parsed URL, a context's error, a reply; the transport, the marshaller and
-- the reader of a body are parameters.
pub mod Checks
pub mod Answers
pub mod Batch
pub mod Cached
pub mod CachedBatch
pub mod Places
pub mod Watermark
pub mod Current
use dev_health_go.Base.{
  ℕ, ◌+◌, Str, codes, eq_str, is_empty, length, List, [], ◌∷◌, map, ◌++◌, Bool, true, false, not,
  ◌&&◌, ◌||◌, ◌==◌, leb, ltb, all, Option, none, some, ◌⊎◌, inl, inr, if◌then◌else◌,
}
use dev_health_go.Pep.Json.{Value, contains}
use dev_health_go.Pep.Checked.{
  Checked, ok, fail, fail_status, ◌>>=◌, ◌>>◌, require, some_or_fail, deny,
}
use dev_health_go.Pep.Decision.{Decision}
use dev_health_go.Pep.Decision.Reasons.{
  Reason, unreachable, timeout, canceled, unavailable, rate_limited, refused, malformed, too_large,
  local_invalid, not_configured,
}
use dev_health_go.Pep.Request.{Request, valid, wire, batch_body, max_batch, client_services}
use dev_health_go.Pep.Wire.{parse_decision, parse_batch, deny_all}

-- 2 s
abbrev pub default_timeout : ℕ
default_timeout = 2_000_000_000

abbrev pub max_single_body : ℕ
max_single_body = 262_144

abbrev pub max_batch_body : ℕ
max_batch_body = 4_194_304

-- What `url.Parse` gives of BaseURL; `absolute` is IsAbs.
pub record Url : Type 0 where
  pub absolute : Bool
  pub scheme : Str
  pub opaque : Str
  pub has_user : Bool
  pub host : Str
  pub hostname : Str
  pub path : Str
  pub raw_query : Str
  pub force_query : Bool
  pub fragment : Str

-- `base_url` is none where BaseURL does not parse; `timeout` is none where it is negative.
pub record Config : Type 0 where
  pub base_url : Option Url
  pub allow_plain_http : Bool
  pub has_http_client : Bool
  pub client_service : Str
  pub timeout : Option ℕ

-- A client that New has built or the zero value: `usable` says that its HTTP client and its clock are set.
pub record Client : Type 0 where
  pub single : Str
  pub batch : Str
  pub usable : Bool
  pub service : Str
  pub timeout : ℕ

pub data StartupError : Type 0 where
  http_client_required service_not_in_set negative_timeout : StartupError
  not_absolute not_https not_an_origin : StartupError

abbrev scheme_ok : Url → Bool → Bool
scheme_ok u plain = eq_str u.scheme (codes "https") || (eq_str u.scheme (codes "http") && plain)

abbrev only_origin : Url → Bool
only_origin u =
    not u.has_user
    && is_empty u.raw_query
    && not u.force_query
    && is_empty u.fragment
    && (is_empty u.path || eq_str u.path (codes "/"))

abbrev pub origin : Url → Str
origin u = u.scheme ++ codes "://" ++ u.host

abbrev pub built : Url → Str → ℕ → Client
built u service t = record {
  single = origin u ++ codes "/v1/authorize";
  batch = origin u ++ codes "/v1/authorize:batch";
  usable = true;
  service = service;
  timeout = if t == 0 then default_timeout else t;
}

-- New, once the URL has parsed.
abbrev pub new_at : Config → ℕ → Url → StartupError ⊎ Client
new_at cfg t u =
    if not u.absolute || is_empty u.hostname || not (is_empty u.opaque)
    then inl not_absolute
    else if not (scheme_ok u cfg.allow_plain_http)
    then inl not_https
    else if not (only_origin u)
    then inl not_an_origin
    else inr (built u cfg.client_service t)

abbrev pub new_timed : Config → Option ℕ → StartupError ⊎ Client
new_timed cfg none = inl negative_timeout
new_timed cfg (some t) = elim cfg.base_url [ none ↦ inl not_absolute | some u ↦ new_at cfg t u ]

-- New
unfoldable pub new : Config → StartupError ⊎ Client
new cfg =
    if not cfg.has_http_client
    then inl http_client_required
    else if not (contains client_services cfg.client_service)
    then inl service_not_in_set
    else new_timed cfg cfg.timeout

-- `ready`: none is the nil client.
abbrev pub ready : Option Client → Bool
ready none = false
ready (some c) = c.usable && not (is_empty c.single)

-- The error of a context.
pub data ContextError : Type 0 where
  live was_canceled deadline_exceeded : ContextError

-- A transport error: what `errors.Is` and the net.Error in it say.
pub record TransportError : Type 0 where
  pub is_canceled : Bool
  pub is_deadline : Bool
  pub is_timeout : Bool

-- A response: `media` is none where the Content-Type does not parse, `content_length` where it is not
-- known, and `body n` is what reading at most `n` bytes gives.
pub record Response : Type 0 where
  pub status : ℕ
  pub media : Option Str
  pub content_length : Option ℕ
  pub body : ℕ → TransportError ⊎ Str

-- One call of the transport: whether the request could be built, what it gave, and the error of the
-- call's own context by then.
pub record Exchange : Type 0 where
  pub request_built : Bool
  pub reply : TransportError ⊎ Response
  pub after : ContextError

unfoldable pub classify : ContextError → TransportError → Reason
classify was_canceled e = canceled
classify live e =
    if e.is_canceled
    then canceled
    else if e.is_deadline
    then timeout
    else if e.is_timeout
    then timeout
    else unreachable
classify deadline_exceeded e = if e.is_canceled then canceled else timeout

-- The error that the context itself gives to `classify` before a call.
abbrev pub context_error : ContextError → TransportError
context_error live = record { is_canceled = false; is_deadline = false; is_timeout = false }
context_error was_canceled = record { is_canceled = true; is_deadline = false; is_timeout = false }
context_error deadline_exceeded = record {
  is_canceled = false;
  is_deadline = true;
  is_timeout = true;
}

abbrev pub status_ok : ℕ → Checked (Unit {0})
status_ok n =
    if n == 200
    then ok tt
    else if n == 429
    then fail_status rate_limited n
    else if leb 500 n
    then fail_status unavailable n
    else fail_status refused n

abbrev is_json : Option Str → Bool
is_json none = false
is_json (some m) = eq_str m (codes "application/json")

abbrev over : ℕ → Option ℕ → Bool
over limit none = false
over limit (some n) = ltb limit n

abbrev bytes : ContextError → TransportError ⊎ Str → Checked Str
bytes after (inl e) = fail (classify after e)
bytes after (inr raw) = ok raw

unfoldable pub read_response : Response → ContextError → ℕ → Checked Str
read_response r after limit = do
  status_ok r.status
  require (is_json r.media) malformed
  require (not (over limit r.content_length)) too_large
  raw ← bytes after (r.body (limit + 1))
  require (leb (length raw) limit) too_large
  ok raw

abbrev pub replied : Exchange → Checked Response
replied x = elim x.reply [ inl e ↦ fail (classify x.after e) | inr r ↦ ok r ]

-- `post` in a context whose error is `before`.
unfoldable pub post : ContextError → Exchange → ℕ → Checked Str
post live x limit = do
  require x.request_built local_invalid
  r ← replied x
  read_response r x.after limit
post before x limit = fail (classify before (context_error before))

module _ (marshal : Value → Option Str) (exchange : Str → Str → Exchange)
    (read : Str → Option Value) where
  -- The call of `Decide`: the random bytes `minted` are what a request id is minted from.
  unfoldable pub ask_single : Client → ContextError → Str → Request → Checked Str
  ask_single c ctx minted req = do
    body ← some_or_fail (marshal (wire c.service minted req)) local_invalid
    post ctx (exchange c.single body) max_single_body

  abbrev pub answer : Checked Str → Request → ℕ → Decision
  answer (fail_status r status) req now = deny r status
  answer (ok raw) req now = parse_decision (read raw) req now

  abbrev decide_ready : Client → Option ContextError → Str → Request → ℕ → Decision
  decide_ready c none minted req now = deny local_invalid 0
  decide_ready c (some ctx) minted req now =
      if not (valid req) then deny local_invalid 0 else answer (ask_single c ctx minted req) req now

  -- `Decide`: none is the nil client, and the nil context.
  unfoldable pub decide : Option Client → Option ContextError → Str → Request → ℕ → Decision
  decide none ctx minted req now = deny not_configured 0
  decide (some c) ctx minted req now =
      if not (ready (some c)) then deny not_configured 0 else decide_ready c ctx minted req now

  abbrev pub requests : List (Str × Request) → List Request
  requests [] = []
  requests ((minted, r) ∷ rs) = r ∷ requests rs

  unfoldable pub ask_batch : Client → ContextError → List (Str × Request) → Checked Str
  ask_batch c ctx items = do
    body ← some_or_fail (marshal (batch_body c.service items)) local_invalid
    post ctx (exchange c.batch body) max_batch_body

  abbrev pub answers_batch : Checked Str → List Request → ℕ → List Decision
  answers_batch (fail_status r status) reqs now = deny_all r status (length reqs)
  answers_batch (ok raw) reqs now = parse_batch (read raw) reqs now

  abbrev batch_ready : Client → Option ContextError → List (Str × Request) → ℕ → List Decision
  batch_ready c none items now = deny_all local_invalid 0 (length (requests items))
  batch_ready c (some ctx) items now =
      if ltb max_batch (length (requests items)) || not (all valid (requests items))
      then deny_all local_invalid 0 (length (requests items))
      else answers_batch (ask_batch c ctx items) (requests items) now

  -- `DecideBatch`: each request stands beside the random bytes of its id.
  unfoldable pub decide_batch :
      Option Client → Option ContextError → List (Str × Request) → ℕ → List Decision
  decide_batch client ctx [] now = []
  decide_batch none ctx (i ∷ is) now = deny_all not_configured 0 (length (requests (i ∷ is)))
  decide_batch (some c) ctx (i ∷ is) now =
      if not (ready (some c))
      then deny_all not_configured 0 (length (requests (i ∷ is)))
      else batch_ready c ctx (i ∷ is) now
