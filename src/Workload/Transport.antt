-- ===== src/Workload/Transport.antt =====
-- The token transport: baseURL and origin of workloadtoken/config.go, build and RoundTrip of
-- workloadtoken/transport.go. net/url, net and strings are a record of functions; a body is its
-- bytes.
pub mod Bare
mod Tests
use dev_health_go.Base.{
  ℕ, Str, codes, eq_str, is_empty, List, [], ◌∷◌, ◌++◌, Bool, true, false, not, ◌&&◌, ◌||◌, ◌==◌,
  Option, none, some, ◌⊎◌, inl, inr, if◌then◌else◌,
}
use dev_health_go.Base.Options.{◌>>=◌, ◌>>◌, guard}
use dev_health_go.Pep.Json.{contains}
use dev_health_go.Workload.Slot.{Cause}

pub record Url : Type 0 where
  pub scheme : Str
  pub opaque : Str
  pub has_user : Bool
  pub host : Str
  pub path : Str
  pub escaped_path : Str
  pub raw_query : Str
  pub force_query : Bool
  pub fragment : Str

pub record UrlLibrary : Type 0 where
  pub parse : Str → Option Url  -- url.Parse
  pub hostname : Str → Str  -- Hostname of a URL of the host
  pub port : Str → Str  -- Port of a URL of the host
  pub to_lower : Str → Str  -- strings.ToLower
  pub join_host_port : Str → Str → Str  -- net.JoinHostPort
  pub equal_fold : Str → Str → Bool  -- strings.EqualFold

abbrev pub Header : Type 0
Header = List (Str × List Str)

pub record Request : Type 0 where
  pub url : Option Url
  pub is_redirect : Bool  -- Response is not nil
  pub method : Str
  pub host : Str
  pub header : Header
  pub body : Str

pub record Outgoing : Type 0 where
  pub method : Str
  pub url : Url
  pub host : Str
  pub header : Header
  pub body : Str

-- The fixed target of a bearerTransport.
pub record Target : Type 0 where
  pub scheme : Str
  pub host : Str
  pub origin : Str

abbrev pub sent_methods : List Str
sent_methods =
    codes "GET" ∷ codes "HEAD" ∷ codes "POST" ∷ codes "PUT" ∷ codes "PATCH" ∷ codes "DELETE" ∷ []

abbrev pub forwarded_headers : List Str
forwarded_headers =
    codes "Accept"
    ∷ codes "Content-Type"
    ∷ codes "User-Agent"
    ∷ codes "X-Request-Id"
    ∷ codes "Traceparent"
    ∷ codes "Tracestate"
    ∷ []

-- `header[name] = append(header[name], values...)`
unfoldable pub add_values : Str → List Str → Header → Header
add_values name values [] = (name, values) ∷ []
add_values name values ((n, vs) ∷ rest) =
    let later = add_values name values rest in
    if eq_str n name then (n, vs ++ values) ∷ rest else (n, vs) ∷ later

-- `Header.Set` of a name in canonical form.
unfoldable pub set_value : Str → Str → Header → Header
set_value name value [] = (name, value ∷ []) ∷ []
set_value name value ((n, vs) ∷ rest) =
    let later = set_value name value rest in
    if eq_str n name then (n, value ∷ []) ∷ rest else (n, vs) ∷ later

abbrev default_port : Str → Str
default_port scheme =
    if eq_str scheme (codes "https")
    then codes "443"
    else if eq_str scheme (codes "http")
    then codes "80"
    else []

abbrev pub or_default : Str → Str → Str
or_default s default = if is_empty s then default else s

abbrev pub starts_with_slash : Str → Bool
starts_with_slash [] = false
starts_with_slash (c ∷ s) = c == b'/'

-- `Authorization: Bearer <token>`
unfoldable pub authorize : Str → Outgoing → Outgoing
unfolding set_value
authorize token out = record out {
  header = set_value (codes "Authorization") (codes "Bearer " ++ token) out.header;
}

-- What RoundTrip answers: a refusal before anything is sent, or what the next transport gives.
pub data Trip (R : Type 0) : Type 0 where
  request_refused : Trip R
  no_token : Cause → Trip R
  sent : R → Trip R

abbrev send : {R : Type 0} → (Outgoing → R) → Outgoing → Cause ⊎ Str → Trip R
send next out (inl err) = no_token err
send next out (inr token) = sent (next (authorize token out))

abbrev with_token : {R : Type 0} → (Outgoing → R) → Cause ⊎ Str → Option Outgoing → Trip R
with_token next token none = request_refused
with_token next token (some out) = send next out token

module _ (lib : UrlLibrary) where
  -- `origin`, of a scheme and a host.
  unfoldable pub origin : Str → Str → Str
  origin scheme host =
      scheme
      ++ codes "://"
      ++ lib.join_host_port (lib.to_lower (lib.hostname host))
          (or_default (lib.port host) (default_port scheme))

  -- `baseURL`
  unfoldable pub base_url : Str → Bool → Option Url
  base_url raw allow_plain_http = do
    u ← lib.parse raw
    guard (not (is_empty u.scheme) && not (is_empty (lib.hostname u.host)) && is_empty u.opaque)
    guard (eq_str u.scheme (codes "https") || (eq_str u.scheme (codes "http") && allow_plain_http))
    guard (
        not u.has_user
        && is_empty u.raw_query
        && not u.force_query
        && is_empty u.fragment
        && (is_empty u.path || eq_str u.path (codes "/")))
    some u

  -- The part of Transport that fixes the target.
  unfoldable pub target_of : Str → Bool → Option Target
  unfolding base_url origin
  target_of raw allow_plain_http = do
    u ← base_url raw allow_plain_http
    some record { scheme = u.scheme; host = u.host; origin = origin u.scheme u.host }

  -- One caller's header against the names that are forwarded.
  unfoldable pub forward_one : List Str → Str → List Str → Header → Header
  unfolding add_values
  forward_one [] key values out = out
  forward_one (name ∷ ns) key values out =
      forward_one ns key values
        (if lib.equal_fold key name then add_values name values out else out)

  -- The loop over the caller's headers.
  unfoldable pub forward : Header → Header → Header
  unfolding forward_one
  forward [] out = out
  forward ((key, values) ∷ rest) out = forward rest (forward_one forwarded_headers key values out)

  -- A URL or Host of the caller names no other origin.
  abbrev pub same_origin : Target → Url → Str → Bool
  same_origin t u host =
      ((is_empty u.scheme && is_empty u.host) || eq_str (origin u.scheme u.host) t.origin)
      && (is_empty host || eq_str (origin t.scheme host) t.origin)

  -- `build`
  unfoldable pub build : Target → Request → Option Outgoing
  unfolding forward origin
  build t req = do
    u ← req.url
    guard (not req.is_redirect && is_empty u.opaque && not u.has_user)
    guard (contains sent_methods (or_default req.method (codes "GET")))
    guard (same_origin t u req.host)
    guard (starts_with_slash (or_default u.escaped_path (codes "/")))
    target ← lib.parse (t.scheme ++ codes "://" ++ t.host ++ or_default u.escaped_path (codes "/"))
    some record {
      method = or_default req.method (codes "GET");
      url = record target { raw_query = u.raw_query };
      host = t.host;
      header = forward req.header [];
      body = req.body;
    }

  abbrev built : Target → Option Request → Option Outgoing
  built t none = none
  built t (some req) = build t req

  -- `RoundTrip`, of the client's token and the next transport.
  unfoldable pub round_trip :
      {R : Type 0} → Target → Cause ⊎ Str → (Outgoing → R) → Option Request → Trip R
  unfolding build authorize
  round_trip t token next req = with_token next token (built t req)
