-- ===== src/Authverify/Keys/Tests.antt =====
-- A document of one key.
use dev_health_go.Base.{
  ◌≡◌, refl, Str, codes, eq_str, List, [], ◌∷◌, true, false, Option, none, some, replicate,
}
use dev_health_go.Platform.{Platform}
use dev_health_go.Pep.Json.{contains, null}
use dev_health_go.Authverify.Document.{scan_value}
use dev_health_go.Authverify.Keys.{
  Jwk, KeySet, key_entry, key_entries, parse_jwks_document, valid_key_id,
}

abbrev platform : Platform
platform = record {
  equal_fold = eq_str;
  trim_space = λ s. s;
  decode_strict = λ s. some s;
  decode_loose = λ s. some s;
  read = λ s. some null;
  media_type = λ s. some s;
  verify_signature = λ key message raw. true;
}

abbrev jwk : Jwk
jwk = record {
  key_type = codes "OKP";
  curve = codes "Ed25519";
  key_id = codes "k1";
  use_of = codes "sig";
  alg = codes "EdDSA";
  x = replicate 32 1;
  retire_after = none;
}

abbrev bind : Str → Option (List Jwk)
bind s = some (jwk ∷ [])

abbrev key_set : KeySet
key_set = (codes "k1", record { public = replicate 32 1; retire_after = none }) ∷ []

parsed : parse_jwks_document platform bind [] false ≡ some key_set
unfolding parse_jwks_document key_entries key_entry valid_key_id scan_value contains eq_str
parsed = refl

-- With the same id twice the document is refused.
parsed_twice : parse_jwks_document platform (λ s. some (jwk ∷ jwk ∷ [])) [] false ≡ none
unfolding parse_jwks_document key_entries key_entry valid_key_id scan_value contains eq_str
parsed_twice = refl
