-- ===== src/Workload/Transport/Bare.antt =====
-- What the token transport sends carries nothing of the caller's but what is forwarded
-- (workloadtoken/transport.go, build and RoundTrip).
use dev_health_go.Base.{
  ◌≡◌, refl, ap, ◌∙◌, subst, false, Str, codes, eq_str, List, [], ◌∷◌, ◌++◌, Bool, true, not, all,
  Option, none, some, ◌⊎◌, inl, inr, if◌then◌else◌, arith, Option-cases,
}
use dev_health_go.Pep.Json.{contains}
use dev_health_go.Workload.Slot.{Cause}
use dev_health_go.Workload.Transport.{
  Url, UrlLibrary, or_default, starts_with_slash, Header, Request, Outgoing, Target, sent_methods,
  forwarded_headers, add_values, set_value, forward_one, forward, build, authorize, sent,
  round_trip,
}

abbrev pub header_names : Header → List Str
header_names [] = []
header_names ((n, vs) ∷ rest) = n ∷ header_names rest

-- All the values under the name.
abbrev pub values_of : Str → Header → List Str
values_of name [] = []
values_of name ((n, vs) ∷ rest) =
    let later = values_of name rest in if eq_str n name then vs ++ later else later

module _ (f : Str → Bool) where
  abbrev AreFine : Header → Type 0
  AreFine h = all f (header_names h) ≡ true

  add_values-names :
      (name : Str) (values : List Str) (h : Header)
      → f name ≡ true
      → AreFine h
      → AreFine (add_values name values h)
  unfolding add_values
  add_values-names name values [] fine h = ground (arith, fine)
  add_values-names name values ((n, vs) ∷ rest) fine h =
      ground (arith, add_values-names name values rest fine)

  set_value-names :
      (name value : Str) (h : Header) → f name ≡ true → AreFine h → AreFine (set_value name value h)
  unfolding set_value
  set_value-names name value [] fine h = ground (arith, fine)
  set_value-names name value ((n, vs) ∷ rest) fine h =
      ground (arith, set_value-names name value rest fine)

  module _ (lib : UrlLibrary) where
    forward_one-names :
        (ns : List Str) (key : Str) (values : List Str) (out : Header)
        → all f ns ≡ true
        → AreFine out
        → AreFine (forward_one lib ns key values out)
    unfolding forward_one
    forward_one-names [] key values out fine h = h
    forward_one-names (n ∷ ns) key values out fine h =
        forward_one-names ns key values
          (if lib.equal_fold key n then add_values n values out else out) (ground arith)
          (ground (arith, add_values-names n values out))

    forward-names :
        (h out : Header)
        → all f forwarded_headers ≡ true
        → AreFine out
        → AreFine (forward lib h out)
    unfolding forward
    forward-names [] out fine names = names
    forward-names ((key, values) ∷ rest) out fine names =
        forward-names rest (forward_one lib forwarded_headers key values out) fine
          (forward_one-names forwarded_headers key values out fine names)

abbrev authorization : Str
authorization = codes "Authorization"

-- Set on a header without the name, it is the name's one value.
set_value-alone :
    (name value : Str) (h : Header)
    → all (λ n. not (eq_str n name)) (header_names h) ≡ true
    → eq_str name name ≡ true
    → values_of name (set_value name value h) ≡ value ∷ []
unfolding set_value
set_value-alone name value [] h e = ground (arith, e)
set_value-alone name value ((n, vs) ∷ rest) h e = ground (arith, set_value-alone name value rest)

-- What the caller's URL gives to the path.
abbrev pub path_of : Url → Str
path_of u = or_default u.escaped_path (codes "/")

-- url.Parse reads the target's own scheme and host before a path as that scheme and host, without a user.
pub record KeepsTarget (lib : UrlLibrary) (t : Target) : Type 0 where
  pub keeps :
      (path : Str) (v : Url)
      → starts_with_slash path ≡ true
      → lib.parse (t.scheme ++ codes "://" ++ t.host ++ path) ≡ some v
      → (v.scheme ≡ t.scheme) × (v.host ≡ t.host) × (v.has_user ≡ false) × (v.opaque ≡ [])

-- The URL is the target's own, read from its scheme and host before the caller's path, with the caller's query.
pub record IsAtTarget (lib : UrlLibrary) (t : Target) (req : Request) (url : Url) : Type 0 where
  pub asked : Url
  pub given : req.url ≡ some asked
  pub at : Url
  pub read : lib.parse (t.scheme ++ codes "://" ++ t.host ++ path_of asked) ≡ some at
  pub located : url ≡ record at { raw_query = asked.raw_query }
  pub scheme : url.scheme ≡ t.scheme
  pub host : url.host ≡ t.host
  pub no_user : url.has_user ≡ false
  pub no_opaque : url.opaque ≡ []

-- A request that carries nothing of the caller's header but what is forwarded, at the target's URL and host, by
-- a method that is sent, with the one token.
pub record IsBare (lib : UrlLibrary) (t : Target) (req : Request) (token : Str) (out : Outgoing)
    : Type 0 where
  pub names :
      all (contains (codes "Authorization" ∷ forwarded_headers)) (header_names out.header) ≡ true
  pub authorized : values_of (codes "Authorization") out.header ≡ (codes "Bearer " ++ token) ∷ []
  pub addressed : out.host ≡ t.host
  pub url : IsAtTarget lib t req out.url
  pub method : contains sent_methods out.method ≡ true

module _ (lib : UrlLibrary) (t : Target) (keeps : KeepsTarget lib t) (token : Str) where
  module _ (req : Request) (out : Outgoing) (h : build lib t req ≡ some out) where
    built_header : forward lib req.header [] ≡ out.header
    unfolding build
    built_header = ground arith

    built_host : out.host ≡ t.host
    unfolding build
    built_host = ground arith

    built_method : contains sent_methods out.method ≡ true
    unfolding build
    built_method = ground arith

    built_url : IsAtTarget lib t req out.url
    unfolding build
    built_url = elim (Option-cases req.url) [
      | inl e ↦ absurd (ground arith)
      | inr (asked, e) ↦
          elim (Option-cases (lib.parse (t.scheme ++ codes "://" ++ t.host ++ path_of asked))) [
            | inl p ↦ absurd (ground arith)
            | inr (at, p) ↦ at_target asked at e p
          ]
    ]
      where
        at_target :
            (asked at : Url)
            → req.url ≡ some asked
            → lib.parse (t.scheme ++ codes "://" ++ t.host ++ path_of asked) ≡ some at
            → IsAtTarget lib t req out.url
        at_target asked at e p =
            let slash : starts_with_slash (path_of asked) ≡ true = ground arith in
            let same : out.url ≡ record at { raw_query = asked.raw_query } = ground arith in
            let (scheme, host, user, opaque) = keeps.keeps (path_of asked) at slash p in
            record {
              asked = asked;
              given = e;
              at = at;
              read = p;
              located = same;
              scheme = ap (λ u. u.scheme) same ∙ scheme;
              host = ap (λ u. u.host) same ∙ host;
              no_user = ap (λ u. u.has_user) same ∙ user;
              no_opaque = ap (λ u. u.opaque) same ∙ opaque;
            }

    built_names :
        (f : Str → Bool) → all f forwarded_headers ≡ true → all f (header_names out.header) ≡ true
    built_names f fine =
        subst (λ x. all f (header_names x) ≡ true) built_header
          (forward-names f lib req.header [] fine refl)

    build-IsBare : IsBare lib t req token (authorize token out)
    unfolding authorize contains eq_str
    build-IsBare = record {
      names =
          set_value-names (contains (authorization ∷ forwarded_headers)) authorization
            (codes "Bearer " ++ token) out.header refl
            (built_names (contains (authorization ∷ forwarded_headers)) refl);
      authorized =
          set_value-alone authorization (codes "Bearer " ++ token) out.header
            (built_names (λ n. not (eq_str n authorization)) refl) refl;
      addressed = built_host;
      url = built_url;
      method = built_method;
    }

-- What the next transport is given carries, of the caller's header, only the forwarded names, and under
-- Authorization the client's token and nothing else; its URL and its Host header name the target's scheme and
-- host, with the caller's path and query, where url.Parse reads the target's own origin as such; and its method
-- is one of those that are sent. Without a token nothing is sent.
pub round_trip-IsBare :
    {R : Type 0} (lib : UrlLibrary) (t : Target)
    → KeepsTarget lib t
    → (token : Cause ⊎ Str) (next : Outgoing → R) (req : Option Request) (r : R)
    → round_trip lib t token next req ≡ sent r
    → (bearer : Str) × (asked : Request) × (out : Outgoing) × (token ≡ inr bearer)
      × (req ≡ some asked)
      × (next out ≡ r)
      × IsBare lib t asked bearer out
unfolding round_trip
round_trip-IsBare lib t keeps token next none r h = absurd (ground arith)
round_trip-IsBare lib t keeps (inl err) next (some req) r h =
    elim (Option-cases (build lib t req)) [
      | inl e ↦ absurd (ground arith)
      | inr (out, e) ↦ absurd (ground arith)
    ]
round_trip-IsBare lib t keeps (inr bearer) next (some req) r h =
    elim (Option-cases (build lib t req)) [
      | inl e ↦ absurd (ground arith)
      | inr (out, e) ↦ (
        bearer,
        req,
        authorize bearer out,
        refl,
        refl,
        ground arith,
        build-IsBare lib t keeps bearer req out e,
      )
    ]
