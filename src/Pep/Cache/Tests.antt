-- ===== src/Pep/Cache/Tests.antt =====
-- The cache at concrete histories.
use dev_health_go.Base.{
  ◌≤◌, ◌≡◌, refl, true, false, none, List, [], ◌∷◌, ◌++◌, length, ◌==◌, if◌then◌else◌, arith,
}
use mathlib.Core.List.{Memᴰ}
use dev_health_go.Pep.Decision.{Decision, no_obligations, is_local_deny, reason_of}
use dev_health_go.Pep.Decision.Reasons.{allowed_by_role, grant_absent, is_local}
use dev_health_go.Pep.Cache.{
  Cache, new_cached_client, observe, raise_watermark, sweep, swept, record_verdict, is_late, find,
  remove, store, offer, place, fresh, bound, bound_from, evict_back, evict, get, get_found, len,
  default_cache_entries, default_cache_ttl,
}
use dev_health_go.Pep.Cache.Entries.{live_count}
use dev_health_go.Pep.Cache.Run.{
  Call, observes, gets, invalidates, run, step, IsGoodHit, Answered, run-get-IsGoodHit,
}
use dev_health_go.Pep.Cache.Order.{
  watermark_only, deny_outlasts_older_allow, flush_outlasts_older_allow,
}
use dev_health_go.Pep.Cache.Settings.{run-get_not_below}
use dev_health_go.Pep.Cache.Size.{run-size}

abbrev empty_cache : Cache
empty_cache = record {
  max_entries = 2;
  max_ttl = default_cache_ttl;
  lru = [];
  allows = 0;
  seq = 0;
  last_flush = 0;
  floor = 0;
  watermark = 0;
  closed = false;
}

abbrev allowing : Decision
allowing = record {
  allowed = true;
  reason = allowed_by_role;
  err = none;
  decision_id = [];
  principal_id = [];
  organization = [];
  has_org = false;
  policy_revision = 5;
  expires_at = 100;
  cacheable = true;
  obligations = no_obligations;
}

abbrev denying : Decision
denying = record allowing { allowed = false; reason = grant_absent }

abbrev one_allow : List Call
one_allow = observes 1 allowing 0 10 11 ∷ []

run-get-IsGoodHit_example : IsGoodHit (Answered one_allow) (run empty_cache one_allow) 1 20 allowing
unfolding new_cached_client run step observe raise_watermark sweep swept record_verdict is_late find
    remove store offer place fresh bound bound_from evict_back evict get get_found is_local_deny
    reason_of is_local
run-get-IsGoodHit_example = run-get-IsGoodHit 2 0 empty_cache one_allow 1 20 allowing refl refl

run-get_not_below_example : allowing.policy_revision ≤ allowing.policy_revision
unfolding new_cached_client run step observe raise_watermark sweep swept record_verdict is_late find
    remove store offer place fresh bound bound_from evict_back evict get get_found is_local_deny
    reason_of is_local
run-get_not_below_example =
    run-get_not_below 2 0 empty_cache one_allow 1 20 allowing 1 allowing 0 10 11 refl refl refl
      (Memᴰ.head refl)

deny_outlasts_older_allow_example :
    observe
      (run empty_cache (one_allow ++ observes 1 denying 0 12 13 ∷ gets 1 14 ∷ []))
      1
      allowing
      0
      12
      15
    ≡ watermark_only
        (run empty_cache (one_allow ++ observes 1 denying 0 12 13 ∷ gets 1 14 ∷ []))
        allowing
unfolding new_cached_client run step observe raise_watermark sweep swept record_verdict is_late find
    remove store offer place fresh bound bound_from evict_back evict is_local_deny reason_of
    is_local
deny_outlasts_older_allow_example =
    deny_outlasts_older_allow 2 0 empty_cache one_allow (gets 1 14 ∷ []) 1 denying 0 12 13 allowing
      0 12 15 refl (omega arith) refl refl refl refl refl (omega arith)

flush_outlasts_older_allow_example :
    observe (run empty_cache (one_allow ++ invalidates ∷ [])) 2 allowing 0 12 15
    ≡ watermark_only (run empty_cache (one_allow ++ invalidates ∷ [])) allowing
unfolding new_cached_client run step observe raise_watermark sweep swept record_verdict is_late find
    remove store offer place fresh bound bound_from evict_back evict is_local_deny reason_of
    is_local
flush_outlasts_older_allow_example =
    flush_outlasts_older_allow 2 0 empty_cache one_allow [] 2 allowing 0 12 15 refl (omega arith)
      refl refl refl (omega arith)

run-size_example :
    (length (run empty_cache one_allow).lru ≤ (if 2 == 0 then default_cache_entries else 2))
    × (len (run empty_cache one_allow) ≡ live_count (run empty_cache one_allow).lru)
    × (len (run empty_cache one_allow) ≤ length (run empty_cache one_allow).lru)
unfolding new_cached_client
run-size_example = run-size 2 0 empty_cache one_allow refl
