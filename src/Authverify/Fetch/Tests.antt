-- ===== src/Authverify/Fetch/Tests.antt =====
-- A fetch from a server that answers its two paths.
use dev_health_go.Base.{
  ◌≡◌, refl, Str, codes, eq_str, List, [], ◌∷◌, true, Option, none, some, replicate, if◌then◌else◌,
}
use dev_health_go.Platform.{Platform}
use dev_health_go.Pep.Json.{
  Value, null, text, array, object, item, nil, member, end, contains, lookup,
}
use dev_health_go.Authverify.Document.{scan_value, closed_set, string_member, decode_object}
use dev_health_go.Authverify.Keys.{
  Jwk, key_entry, key_entries, parse_jwks_document, parse_jwks, valid_key_id,
}
use dev_health_go.Authverify.Fetch.{
  Limits, Reply, responded, discovery_valid, get, fetch, alg_values,
}
use dev_health_go.Authverify.Fetch.Pinned.{ArePinned, fetch-ArePinned}

abbrev discovery : Value
discovery = object (
    member (codes "issuer") (text (codes "https://auth.example")) (
      member (codes "jwks_uri") (text (codes "https://auth.example/.well-known/jwks.json"))
        (member alg_values (array (item (text (codes "EdDSA")) nil)) end)))

abbrev platform : Platform
platform = record {
  equal_fold = eq_str;
  trim_space = λ s. s;
  decode_strict = λ s. some s;
  decode_loose = λ s. some s;
  read = λ s. if eq_str s (codes "d") then some discovery else some null;
  media_type = λ s. some s;
  verify_signature = λ key message raw. true;
}

abbrev jwk : Jwk
jwk = record {
  key_type = codes "OKP";
  curve = codes "Ed25519";
  key_id = codes "k1";
  use_of = [];
  alg = codes "EdDSA";
  x = replicate 32 1;
  retire_after = none;
}

abbrev bind : Str → Option (List Jwk)
bind s = some (jwk ∷ [])

abbrev limits : Limits
limits = record { issuer = codes "https://auth.example"; max_body_bytes = 100; max_keys = 2 }

abbrev server : Str → Reply
server url =
    if eq_str url (codes "https://auth.example/.well-known/jwks.json")
    then responded 200 (some (codes "k"))
    else responded 200 (some (codes "d"))

abbrev keys : List (Str × Str)
keys = (codes "k1", replicate 32 1) ∷ []

fetched : fetch platform limits bind server ≡ some keys
unfolding fetch get discovery_valid decode_object scan_value closed_set string_member parse_jwks
    parse_jwks_document key_entries key_entry valid_key_id contains lookup eq_str
fetched = refl

fetch-ArePinned_example : ArePinned platform limits bind server keys
fetch-ArePinned_example = fetch-ArePinned platform limits bind server keys fetched
