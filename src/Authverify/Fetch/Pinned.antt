-- ===== src/Authverify/Fetch/Pinned.antt =====
-- The keys that a fetch gives are the pinned issuer's (authverify/jwks_client.go, fetch).
use dev_health_go.Base.{
  ℕ, ◌≤◌, ◌≡◌, refl, Str, codes, eq_str→eq, length, List, ◌++◌, true, false, Option, none, some,
  Option-cases, inl, inr, arith,
}
use dev_health_go.Platform.{Platform}
use dev_health_go.Pep.Json.{Members, distinct}
use dev_health_go.Authverify.Document.{string_member, any_text, decode_object}
use dev_health_go.Authverify.Keys.{
  Jwk, KeySet, kids, parse_jwks_document, parse_jwks, publics, publics_of,
}
use dev_health_go.Authverify.Keys.Sound.{AreKeysOf, parse_jwks_document-AreKeysOf}
use dev_health_go.Authverify.Fetch.{
  Limits, Reply, responded, no_response, body_of, discovery_path, jwks_path, discovery_valid, get,
  fetch,
}

-- A discovery document that names the issuer and its one place of keys.
pub record IsDiscovery (p : Platform) (cfg : Limits) (raw : Str) : Type 0 where
  pub object : Members
  pub decoded : decode_object p raw ≡ some object
  pub issuer : string_member object (codes "issuer") any_text ≡ some cfg.issuer
  pub jwks_uri : string_member object (codes "jwks_uri") any_text ≡ some (cfg.issuer ++ jwks_path)

module _ (p : Platform) (cfg : Limits) (bind : Str → Option (List Jwk)) (server : Str → Reply) where
  -- Where the keys come from.
  pub record ArePinned (keys : List (Str × Str)) : Type 0 where
    pub discovery : Str
    pub body : Str
    pub document : List Jwk
    pub set : KeySet
    pub discovered : server (cfg.issuer ++ discovery_path) ≡ responded 200 (some discovery)
    pub is_discovery : IsDiscovery p cfg discovery
    pub served : server (cfg.issuer ++ jwks_path) ≡ responded 200 (some body)
    pub small : length body ≤ cfg.max_body_bytes
    pub bound : bind body ≡ some document
    pub are_keys : AreKeysOf p document set
    pub once : distinct (kids set) ≡ true
    pub given : keys ≡ publics p set
    pub few : length keys ≤ cfg.max_keys

  body_of-some :
      (most : ℕ) (r : Reply) (body : Str)
      → body_of most r ≡ some body
      → (r ≡ responded 200 (some body)) × (length body ≤ most)
  body_of-some most no_response body h = absurd (ground arith)
  body_of-some most (responded status none) body h = absurd (ground arith)
  body_of-some most (responded status (some b)) body h = (ground arith, ground arith)

  discovery_valid-IsDiscovery :
      (raw : Str) → discovery_valid p cfg raw ≡ some tt → IsDiscovery p cfg raw
  unfolding discovery_valid
  discovery_valid-IsDiscovery raw h = elim (Option-cases (decode_object p raw)) [
    | inl e ↦ absurd (ground arith)
    | inr (o, e) ↦
        read o e (string_member o (codes "issuer") any_text)
          (string_member o (codes "jwks_uri") any_text) refl refl
  ]
    where
      read :
          (o : Members)
          → decode_object p raw ≡ some o
          → (issuer uri : Option Str) → string_member o (codes "issuer") any_text ≡ issuer
          → string_member o (codes "jwks_uri") any_text ≡ uri
          → IsDiscovery p cfg raw
      read o e none uri i u = absurd (ground arith)
      read o e (some issuer) none i u = absurd (ground arith)
      read o e (some issuer) (some uri) i u = record {
        object = o;
        decoded = e;
        issuer = ground (arith, eq_str→eq issuer cfg.issuer);
        jwks_uri = ground (arith, eq_str→eq uri (cfg.issuer ++ jwks_path));
      }

  publics_of-some :
      (o : Option KeySet) (keys : List (Str × Str))
      → publics_of p o ≡ some keys
      → (set : KeySet) × (o ≡ some set) × (keys ≡ publics p set)
  publics_of-some none keys h = absurd (ground arith)
  publics_of-some (some set) keys h = (set, refl, ground arith)

  module _ (keys : List (Str × Str)) (h : fetch p cfg bind server ≡ some keys) where
    module _ (discovery body : Str)
        (d : get p cfg bind server (cfg.issuer ++ discovery_path) ≡ some discovery)
        (b : get p cfg bind server (cfg.issuer ++ jwks_path) ≡ some body) where
      fetch-discovery_valid : discovery_valid p cfg discovery ≡ some tt
      unfolding fetch
      fetch-discovery_valid = ground arith

      fetch-parse_jwks : parse_jwks p bind body ≡ some keys
      unfolding fetch
      fetch-parse_jwks = ground arith

      fetch_few : length keys ≤ cfg.max_keys
      unfolding fetch
      fetch_few = ground arith

    parse_jwks-publics_of :
        (body : Str)
        → parse_jwks p bind body ≡ some keys
        → publics_of p (parse_jwks_document p bind body false) ≡ some keys
    unfolding parse_jwks
    parse_jwks-publics_of body e = e

    from_parts :
        (discovery body : Option Str)
        → get p cfg bind server (cfg.issuer ++ discovery_path) ≡ discovery
        → get p cfg bind server (cfg.issuer ++ jwks_path) ≡ body
        → ArePinned keys
    unfolding fetch get
    from_parts none body d b = absurd (ground arith)
    from_parts (some discovery) none d b = absurd (ground arith)
    from_parts (some discovery) (some body) d b =
        let (discovered, _) =
          body_of-some cfg.max_body_bytes (server (cfg.issuer ++ discovery_path)) discovery d in
        let (served, small) =
          body_of-some cfg.max_body_bytes (server (cfg.issuer ++ jwks_path)) body b in
        let (set, parsed, given) =
          publics_of-some (parse_jwks_document p bind body false) keys
            (parse_jwks-publics_of body (fetch-parse_jwks discovery body d b)) in
        let (document, bound, _, are, once) =
          parse_jwks_document-AreKeysOf p bind body false set parsed in
        record {
          discovery = discovery;
          body = body;
          document = document;
          set = set;
          discovered = discovered;
          is_discovery =
              discovery_valid-IsDiscovery discovery (fetch-discovery_valid discovery body d b);
          served = served;
          small = small;
          bound = bound;
          are_keys = are;
          once = once;
          given = given;
          few = fetch_few discovery body d b;
        }

    -- Keys that a fetch gives were served with status 200, within the bound on a body, from the pinned issuer's
    -- own key path, after its discovery document named that issuer and that path; each is the 32 bytes of one
    -- key of the served document, none left out and no id twice, and they are at most MaxKeys.
    pub fetch-ArePinned : ArePinned keys
    fetch-ArePinned =
        from_parts (get p cfg bind server (cfg.issuer ++ discovery_path))
          (get p cfg bind server (cfg.issuer ++ jwks_path)) refl refl
