-- ===== src/Authverify/Fetch.antt =====
-- The fetch of an issuer's keys: fetch, get and discoveryValid of authverify/jwks_client.go. What the
-- server answers for a URL is an argument, and so is the binding of a key document.
pub mod Pinned
mod Tests
use dev_health_go.Base.{
  ℕ, Str, codes, eq_str, length, List, [], ◌∷◌, ◌++◌, Bool, true, false, not, ◌&&◌, ◌==◌, ltb, leb,
  Option, none, some,
}
use dev_health_go.Base.Options.{◌>>=◌, ◌>>◌, guard}
use dev_health_go.Platform.{Platform}
use dev_health_go.Pep.Json.{Value, Members, lookup, as_array, as_string}
use dev_health_go.Authverify.Document.{closed_set, string_member, any_text, decode_object}
use dev_health_go.Authverify.Compact.{alg_ed_dsa}
use dev_health_go.Authverify.Keys.{Jwk, parse_jwks}

abbrev pub discovery_path : Str
discovery_path = codes "/.well-known/openid-configuration"

abbrev pub jwks_path : Str
jwks_path = codes "/.well-known/jwks.json"

abbrev pub alg_values : Str
alg_values = codes "id_token_signing_alg_values_supported"

abbrev pub discovery_members : List Str
discovery_members = codes "issuer" ∷ codes "jwks_uri" ∷ alg_values ∷ []

-- What a request gives: no response, or its status and, where it can be read, its body.
pub data Reply : Type 0 where
  no_response : Reply
  responded : ℕ → Option Str → Reply

-- The pinned issuer and the limits of the client.
pub record Limits : Type 0 where
  pub issuer : Str
  pub max_body_bytes : ℕ
  pub max_keys : ℕ

abbrev pub body_of : ℕ → Reply → Option Str
body_of most no_response = none
body_of most (responded status none) = none
body_of most (responded status (some body)) = do
  guard (status == 200)
  guard (leb (length body) most)
  some body

abbrev only : List Value → Option Str
only (v ∷ []) = as_string v
only _ = none

module _ (p : Platform) (cfg : Limits) where
  -- `discoveryValid`, none where it is not.
  unfoldable pub discovery_valid : Str → Option (Unit {0})
  unfolding decode_object
  discovery_valid raw = do
    o ← decode_object p raw
    guard (closed_set o discovery_members discovery_members)
    issuer ← string_member o (codes "issuer") any_text
    guard (eq_str issuer cfg.issuer)
    uri ← string_member o (codes "jwks_uri") any_text
    guard (eq_str uri (cfg.issuer ++ jwks_path))
    v ← lookup alg_values o
    algs ← as_array v
    alg ← only algs
    guard (eq_str alg alg_ed_dsa)

  module _ (bind : Str → Option (List Jwk)) (server : Str → Reply) where
    -- `get`
    unfoldable pub get : Str → Option Str
    get url = body_of cfg.max_body_bytes (server url)

    -- `fetch`: no error of it is told from another.
    unfoldable pub fetch : Option (List (Str × Str))
    unfolding get discovery_valid
    fetch = do
      discovery ← get (cfg.issuer ++ discovery_path)
      discovery_valid discovery
      body ← get (cfg.issuer ++ jwks_path)
      keys ← parse_jwks p bind body
      guard (leb (length keys) cfg.max_keys)
      some keys
