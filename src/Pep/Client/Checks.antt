-- ===== src/Pep/Client/Checks.antt =====
-- What New refuses, and the batches that are sent (pep/client.go, New and DecideBatch).
use dev_health_go.Base.{
  Str, codes, ◌++◌, ◌≡◌, refl, eq_str, is_empty, true, false, Option, none, some, inr, ◌||◌, ◌&&◌,
  arith, [], ◌∷◌,
}
use dev_health_go.Pep.Json.{contains}
use dev_health_go.Pep.Request.{client_services}
use dev_health_go.Pep.Client

-- What a client that New returns is: ready, of a service in the contract's set, and its two targets on
-- the origin of BaseURL, which is https, or http where plain HTTP is allowed.
pub record IsConfigured (cfg : Client.Config) (c : Client.Client) : Type 0 where
  pub is_ready : Client.ready (some c) ≡ true
  pub known : contains client_services c.service ≡ true
  pub url : Client.Url
  pub parsed : cfg.base_url ≡ some url
  pub single : c.single ≡ Client.origin url ++ codes "/v1/authorize"
  pub batch : c.batch ≡ Client.origin url ++ codes "/v1/authorize:batch"
  pub secure :
      (eq_str url.scheme (codes "https")
        || (eq_str url.scheme (codes "http") && cfg.allow_plain_http))
      ≡ true
  pub bounded : (c.timeout ≡ 0) → ⊥

append_filled : (s t : Str) → is_empty t ≡ false → is_empty (s ++ t) ≡ false
append_filled [] t h = h
append_filled (x ∷ s) t h = refl

-- A configuration that New accepts gives a client that is ready, of a service in the contract's set,
-- with a timeout that is not 0, whose two targets are on the origin of the BaseURL, with the scheme
-- https, or http where plain HTTP is allowed.
pub new-IsConfigured :
    (cfg : Client.Config) (c : Client.Client) → Client.new cfg ≡ inr c → IsConfigured cfg c
unfolding Client.new
new-IsConfigured cfg c h = from_url cfg.base_url refl
  where
    from_url : (x : Option Client.Url) → cfg.base_url ≡ x → IsConfigured cfg c
    from_url none p = absurd (ground arith)
    from_url (some u) p =
        let filled = append_filled (Client.origin u) (codes "/v1/authorize") refl in
        record {
          is_ready = ground arith;
          known = ground arith;
          url = u;
          parsed = p;
          single = ground arith;
          batch = ground arith;
          secure = ground arith;
          bounded = ground arith;
        }
