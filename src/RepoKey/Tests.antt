-- ===== src/RepoKey/Tests.antt =====
-- repokey at concrete keys.
use dev_health_go.Base.{codes, eq_str, split, refl}
use dev_health_go.RepoKey.{valid_slug, body}
use dev_health_go.RepoKey.Laws.{IsSafeKey, valid_slug-IsSafeKey}

valid_slug-IsSafeKey_example : IsSafeKey (codes "acme/api")
unfolding valid_slug body split eq_str
valid_slug-IsSafeKey_example = valid_slug-IsSafeKey (codes "acme/api") refl
