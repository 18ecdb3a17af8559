-- ===== src/Authverify/Exchange/Tests.antt =====
-- An exchange of an opaque token for a part of a grant.
use dev_health_go.Base.{
  ℕ, ◌*◌, ◌≡◌, refl, Str, codes, eq_str, split, List, [], ◌∷◌, true, none, some, ◌⊎◌, inr,
}
use dev_health_go.Platform.{Platform}
use dev_health_go.Pep.Json.{contains}
use dev_health_go.Authverify.Compact.{split_compact}
use dev_health_go.Authverify.Exchange.{
  Fault, SubjectIdentity, WorkloadBinding, IssuedToken, Result, narrow, resolve_requested_scope,
  check_issued_lifetime, exchange, second,
}
use dev_health_go.Authverify.Exchange.Granted.{IsGranted, exchange-IsGranted}

abbrev platform : Platform
platform = record {
  equal_fold = eq_str;
  trim_space = λ s. s;
  decode_strict = λ s. some s;
  decode_loose = λ s. some s;
  read = λ s. none;
  media_type = λ s. some s;
  verify_signature = λ key message raw. true;
}

abbrev identity : SubjectIdentity
identity = record {
  trust_domain = codes "cluster";
  namespace = codes "prod";
  service_account_name = codes "worker";
  service_account_uid = codes "uid-1";
  expires_at = 2000 * second;
}

abbrev binding : WorkloadBinding
binding = record {
  binding_id = codes "b1";
  org_id = codes "o1";
  granted_scopes = codes "read" ∷ codes "write" ∷ [];
  repository_scopes = [];
}

abbrev issued : IssuedToken
issued = record {
  token = codes "opaque";
  issued_at = some (1000 * second);
  expires_at = some (1300 * second);
}

abbrev asked : List Str
asked = codes "read" ∷ codes "read" ∷ []

abbrev given : Result
given = record { access_token = codes "opaque"; expires_in = 290; scope = codes "read" ∷ [] }

abbrev validate : Str → Fault ⊎ SubjectIdentity
validate s = inr identity

abbrev resolve : SubjectIdentity → Fault ⊎ WorkloadBinding
resolve i = inr binding

abbrev issue : WorkloadBinding → List Str → ℕ → Fault ⊎ IssuedToken
issue b scope expires = inr issued

exchanged :
    exchange platform validate resolve issue (codes "subject") asked (1010 * second) ≡ inr given
unfolding exchange resolve_requested_scope narrow check_issued_lifetime split_compact split contains
    eq_str
exchanged = refl

exchange-IsGranted_example :
    IsGranted platform validate resolve issue (codes "subject") asked (1010 * second) given
exchange-IsGranted_example =
    exchange-IsGranted platform validate resolve issue (codes "subject") asked (1010 * second) given
      exchanged
