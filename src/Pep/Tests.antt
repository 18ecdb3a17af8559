-- ===== src/Pep/Tests.antt =====
-- The client at a concrete request and its answer.
use dev_health_go.Base.{
  ℕ, ◌≤◌, ◌≡◌, ◌↔◌, refl, Str, codes, eq_str, split, true, false, none, some, Option, List, [], ◌∷◌,
  ◌++◌, replicate, length, ◌⊎◌, inr,
}
use dev_health_go.RepoKey.{valid_slug, body}
use dev_health_go.RepoKey
use dev_health_go.Pep.Json.{
  Value, text, number, object, array, bool, Members, member, end, item, nil, no_duplicates, walk,
  walk_members, lookup, contains, keys_within, max_depth,
}
use dev_health_go.Pep.Json.Strict.{no_duplicates_iff, nesting, IsUnambiguous}
use dev_health_go.Pep.Checked.{deny, ok}
use dev_health_go.Pep.Expiry.{parse_revision, parse_expiry}
use dev_health_go.Pep.Decision.{Decision, zero_decision, from_wire, new_obligations, local}
use dev_health_go.Pep.Decision.Reasons.{Reason, allow_reason, wire_reason}
use dev_health_go.Pep.Request.{
  Request, valid, is_principal_reference, is_action, is_request_id, mint_request_id,
}
use dev_health_go.Pep.Request.Mint.{mint_request_id-is_request_id}
use dev_health_go.Pep.Wire.{
  parse_decision, decode_decision, decode_wire, read_batch, parse_batch, deny_all, is_decision_id,
  is_principal_id,
}
use dev_health_go.Pep.Wire.Sound.{IsVerdictFor, parse_decision-IsVerdictFor}
use dev_health_go.Pep.Wire.Batch.{parse_batch_whole, Answers}
use dev_health_go.Pep.Client
use dev_health_go.Pep.Client.Checks.{IsConfigured, new-IsConfigured}
use dev_health_go.Pep.Client.Answers.{IsAllowed, decide-IsAllowed}
use dev_health_go.Pep.Client.Batch.{IsAllOrNothing, decide_batch-IsAllOrNothing}
use dev_health_go.Pep.Client.Cached.{cached_decide, cached_decide-IsSafe, IsSafe, Readings}
use dev_health_go.Pep.Client.CachedBatch.{cached_decide_batch}
use dev_health_go.Pep.Client.Current
use dev_health_go.Pep.Cache.{Cache, new_cached_client}
use dev_health_go.Pep.Cache.Run.{Call, observes, invalidates, run}

abbrev request : Request
request = record {
  principal_reference = codes "principal-reference-1";
  action = codes "repo.read";
  resource_type = codes "repository";
  resource_key = codes "acme/api";
  organization_id = codes "org-1";
  request_id = [];
}

abbrev decision_document : Value
decision_document = object (
    member (codes "schema_version") (text (codes "authorization_decision.v1")) (
      member (codes "decision_id") (text (codes "dec_ABCDEFGHIJKLMNOPQRSTUVWXYZ")) (
        member (codes "allowed") (bool true) (
          member (codes "reason_code") (text (codes "allowed_by_role")) (
            member (codes "principal_id") (text (codes "prn_abc")) (
              member (codes "organization_id") (text (codes "org-1")) (
                member (codes "policy_revision") (number (codes "42"))
                  (member (codes "expires_at") (text (codes "2030-01-01T00:00:00Z")) end))))))))

verdict_example : IsVerdictFor request 1 (parse_decision (some decision_document) request 1)
unfolding parse_decision no_duplicates walk walk_members contains eq_str decode_decision decode_wire
    keys_within lookup wire_reason allow_reason parse_revision parse_expiry from_wire
    new_obligations deny local is_decision_id is_principal_id
verdict_example = parse_decision-IsVerdictFor (some decision_document) request 1 refl

abbrev batch_document : Value
batch_document = object (
    member (codes "schema_version") (text (codes "authorization_batch_response.v1")) (
      member (codes "decisions")
        (array (
          item
            (object (
              member (codes "index") (number (codes "0"))
                (member (codes "decision") decision_document end)))
            nil))
        end))

parse_batch_example :
    ((r : Reason) × (status : ℕ) × (parse_batch (some batch_document) (request ∷ []) 1
        ≡ deny_all r status 1))
    ⊎ ((es : List (ℕ × Members)) × (read_batch (some batch_document) 1 ≡ ok es)
        × Answers 1 0 es (request ∷ []) (parse_batch (some batch_document) (request ∷ []) 1))
parse_batch_example = parse_batch_whole (some batch_document) (request ∷ []) 1

no_duplicates_example :
    (no_duplicates batch_document ≡ true)
    ↔ ((nesting batch_document ≤ max_depth) × IsUnambiguous batch_document)
no_duplicates_example = no_duplicates_iff batch_document

mint_example : is_request_id (mint_request_id (replicate 26 200)) ≡ true
mint_example = mint_request_id-is_request_id (replicate 26 200) refl

abbrev url : Client.Url
url = record {
  absolute = true;
  scheme = codes "https";
  opaque = [];
  has_user = false;
  host = codes "auth:443";
  hostname = codes "auth";
  path = [];
  raw_query = [];
  force_query = false;
  fragment = [];
}

abbrev config : Client.Config
config = record {
  base_url = some url;
  allow_plain_http = false;
  has_http_client = true;
  client_service = codes "dev-health-web";
  timeout = some 0;
}

abbrev client : Client.Client
client = Client.built url (codes "dev-health-web") 0

new-IsConfigured_example : IsConfigured config client
unfolding Client.new contains eq_str
new-IsConfigured_example = new-IsConfigured config client refl

-- A marshaller, a transport and a reader that answer every call with one document.
abbrev marshal : Value → Option Str
marshal v = some (codes "{}")

abbrev exchange : Str → Str → Client.Exchange
exchange target body = record {
  request_built = true;
  reply = inr (record {
    status = 200;
    media = some (codes "application/json");
    content_length = none;
    body = λ n. inr (codes "{}");
  });
  after = Client.live;
}

abbrev read : Str → Option Value
read raw = some decision_document

decide-IsAllowed_example :
    IsAllowed marshal exchange read
      (some client)
      []
      request
      1
      (Client.decide marshal exchange read (some client) (some Client.live) [] request 1)
unfolding Client.decide Client.ask_single Client.post Client.read_response valid
    is_principal_reference is_action split valid_slug body parse_decision no_duplicates walk
    walk_members contains eq_str decode_decision decode_wire keys_within lookup wire_reason
    allow_reason parse_revision parse_expiry from_wire new_obligations deny local is_decision_id
    is_principal_id RepoKey.valid
decide-IsAllowed_example =
    decide-IsAllowed marshal exchange read (some client) (some Client.live) [] request 1 refl

decide_batch_example : IsAllOrNothing marshal exchange read (some client) (([], request) ∷ []) 1 (
    Client.decide_batch marshal exchange read
      (some client)
      (some Client.live)
      (([], request) ∷ [])
      1)
decide_batch_example =
    decide_batch-IsAllOrNothing marshal exchange read (some client) (some Client.live)
      (([], request) ∷ []) 1

abbrev empty_cache : Cache
empty_cache = record {
  max_entries = 2;
  max_ttl = 5;
  lru = [];
  allows = 0;
  seq = 0;
  last_flush = 0;
  floor = 0;
  watermark = 0;
  closed = false;
}

abbrev readings : Readings
readings = record { at_get = 1; at_stamp = 2; at_answer = 3; at_observe = 4 }

abbrev quote : Str → Str
quote s = s

abbrev allowed_decision : Decision
allowed_decision = record zero_decision { allowed = true; cacheable = true; expires_at = 9 }

-- Another caller's allow for a key, and a flush that comes in flight.
abbrev earlier : List Call
earlier = observes 7 allowed_decision 1 0 0 ∷ []

cached_decide-IsSafe_example :
    IsSafe marshal exchange read quote length
      (some client)
      (some Client.live)
      []
      request
      readings
      earlier
      ([] ++ (invalidates ∷ []))
      (run empty_cache earlier)
      (cached_decide marshal exchange read quote length
        (some client)
        (run empty_cache earlier)
        (some Client.live)
        []
        request
        readings
        []
        (invalidates ∷ []))
unfolding new_cached_client
cached_decide-IsSafe_example =
    cached_decide-IsSafe marshal exchange read quote length (some client) 2 5 empty_cache earlier
      (some Client.live) [] request readings [] (invalidates ∷ []) refl

-- A flush comes before every section; each call of the PDP has the same answer.
cached_decide_batch-IsSafe_example :
    Current.IsSafe marshal
      (λ n. exchange)
      read
      quote
      length
      (some client)
      (λ n. invalidates ∷ [])
      (λ n. n)
      earlier
      (run empty_cache earlier)
      (some Client.live)
      (([], request) ∷ ([], request) ∷ [])
      (cached_decide_batch marshal
        (λ n. exchange)
        read
        quote
        length
        (some client)
        (λ n. invalidates ∷ [])
        (λ n. n)
        (run empty_cache earlier)
        (some Client.live)
        (([], request) ∷ ([], request) ∷ []))
unfolding new_cached_client
cached_decide_batch-IsSafe_example =
    Current.cached_decide_batch-IsSafe marshal (λ n. exchange) read quote length (some client)
      (λ n. invalidates ∷ []) (λ n. n) earlier 2 5 empty_cache (some Client.live)
      (([], request) ∷ ([], request) ∷ []) refl

expiry_zulu : parse_expiry (codes "0001-01-01T00:00:01.5Z") ≡ some 1_500_000_000
unfolding parse_expiry
expiry_zulu = refl

expiry_last : parse_expiry (codes "9999-12-31T23:59:59.999999Z") ≡ some 315_537_897_599_999_999_000
unfolding parse_expiry
expiry_last = refl

expiry_day : parse_expiry (codes "2026-02-29T00:00:00Z") ≡ none
unfolding parse_expiry
expiry_day = refl

expiry_before : parse_expiry (codes "0001-01-01T00:00:00+00:01") ≡ none
unfolding parse_expiry
expiry_before = refl
