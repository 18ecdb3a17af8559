-- ===== src/Workload/Transport/Tests.antt =====
-- A request on its way through the transport. The caller's Authorization and Cookie are dropped.
use dev_health_go.Base.{
  ℕ, suc, zero, ◌≡◌, refl, Str, arith, Option, none, if◌then◌else◌, codes, eq_str, [], ◌∷◌, false,
  some, inr, ◌⊎◌,
}
use dev_health_go.Pep.Json.{contains}
use dev_health_go.Workload.Slot.{Cause}
use dev_health_go.Workload.Transport.{
  Url, UrlLibrary, Request, Outgoing, Target, round_trip, build, forward, forward_one, add_values,
  origin, authorize, set_value, sent,
}
use dev_health_go.Workload.Transport.Bare.{IsBare, KeepsTarget, round_trip-IsBare}

abbrev take : ℕ → Str → Str
take zero s = []
take (suc n) [] = []
take (suc n) (c ∷ s) = c ∷ take n s

abbrev drop : ℕ → Str → Str
drop zero s = s
drop (suc n) [] = []
drop (suc n) (c ∷ s) = drop n s

abbrev map_url : (Str → Url) → Option Str → Option Url
map_url f none = none
map_url f (some s) = some (f s)

abbrev url : Url
url = record {
  scheme = [];
  opaque = [];
  has_user = false;
  host = [];
  path = codes "/v1";
  escaped_path = codes "/v1";
  raw_query = codes "a=b";
  force_query = false;
  fragment = [];
}

-- The text after "https://api.example", the only origin it reads.
abbrev after_origin : Str → Option Str
after_origin s = if eq_str (take 19 s) (codes "https://api.example") then some (drop 19 s) else none

abbrev at_target : Str → Url
at_target path = record url {
  scheme = codes "https";
  host = codes "api.example";
  path = path;
  escaped_path = path;
  raw_query = [];
}

abbrev parse : Str → Option Url
parse s = map_url at_target (after_origin s)

abbrev library : UrlLibrary
library = record {
  parse = parse;
  hostname = λ s. s;
  port = λ s. codes "443";
  to_lower = λ s. s;
  join_host_port = λ host port. host;
  equal_fold = eq_str;
}

abbrev target : Target
target = record {
  scheme = codes "https";
  host = codes "api.example";
  origin = codes "https://api.example";
}

abbrev request : Request
request = record {
  url = some url;
  is_redirect = false;
  method = [];
  host = [];
  header =
      (codes "Accept", codes "application/json" ∷ [])
      ∷ (codes "Authorization", codes "Bearer mine" ∷ [])
      ∷ (codes "Cookie", codes "a" ∷ [])
      ∷ [];
  body = [];
}

abbrev sent_request : Outgoing
sent_request = record {
  method = codes "GET";
  url = record (at_target (codes "/v1")) { raw_query = codes "a=b" };
  host = codes "api.example";
  header =
      (codes "Accept", codes "application/json" ∷ [])
      ∷ (codes "Authorization", codes "Bearer t" ∷ [])
      ∷ [];
  body = [];
}

abbrev token : Cause ⊎ Str
token = inr (codes "t")

trip : round_trip library target token (λ out. out) (some request) ≡ sent sent_request
unfolding round_trip build forward forward_one add_values origin authorize set_value contains eq_str
trip = refl

target_kept : KeepsTarget library target
unfolding eq_str
target_kept = record {
  keeps = λ path v slash read. (ground arith, ground arith, ground arith, ground arith);
}

round_trip-IsBare_example :
    (bearer : Str) × (asked : Request) × (out : Outgoing) × (token ≡ inr bearer)
    × (some request ≡ some asked)
    × (out ≡ sent_request)
    × IsBare library target asked bearer out
round_trip-IsBare_example =
    round_trip-IsBare library target target_kept token (λ out. out) (some request) sent_request trip
