-- ===== src/Workload/RequestKey/Tests.antt =====
-- A key on concrete actions, which are in order already.
use dev_health_go.Base.{◌≡◌, refl, Str, codes, eq_str, List, [], ◌∷◌, some}
use dev_health_go.Workload.Exchange.{join}
use dev_health_go.Workload.RequestKey.{request_key, compact, printable}
use dev_health_go.Workload.RequestKey.Injective.{request_key-injective}

abbrev in_order : List Str → List Str
in_order ss = ss

abbrev once : List Str
once = codes "read" ∷ codes "write" ∷ []

abbrev twice : List Str
twice = codes "read" ∷ codes "read" ∷ codes "write" ∷ []

key_once : request_key in_order (codes "api") once ≡ some (codes "api read write", once)
unfolding request_key compact printable join eq_str
key_once = refl

key_twice : request_key in_order (codes "api") twice ≡ some (codes "api read write", once)
unfolding request_key compact printable join eq_str
key_twice = refl

request_key-injective_example : (codes "api" ≡ codes "api") × (once ≡ once)
request_key-injective_example =
    request_key-injective in_order (λ f ss h. h) (codes "api") (codes "api") once twice
      (codes "api read write") once once key_once key_twice
