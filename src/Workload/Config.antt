-- ===== src/Workload/Config.antt =====
-- The limits of a token client (workloadtoken/client.go, New). Durations are nanoseconds, and none is a
-- negative one. The refresh fraction is a fraction of two naturals, the second not 0; the checks
-- of the subject, the transport, the issuer and the URL are their outcomes, and the order is the source's.
use dev_health_go.Base.{
  ℕ, ◌*◌, ◌==◌, ◌≤◌, ◌<◌, ◌≡◌, Bool, true, false, ◌||◌, ltb, Option, none, some, ◌⊎◌, inl, inr,
  if◌then◌else◌, arith,
}

-- The Config field that New names in its refusal.
pub data Field : Type 0 where
  subject transport issuer exchange_url timeout refresh_fraction : Field
  safety_margin backoff_floor backoff_ceiling : Field

abbrev pub millisecond : ℕ
millisecond = 1_000_000

abbrev pub max_timeout : ℕ
max_timeout = 30_000 * millisecond

abbrev pub min_timeout : ℕ
min_timeout = 10 * millisecond

abbrev pub max_safety_margin : ℕ
max_safety_margin = 120_000 * millisecond

abbrev pub max_backoff : ℕ
max_backoff = 300_000 * millisecond

pub record Config : Type 0 where
  pub has_subject : Bool
  pub transport_ok : Bool
  pub issuer_ok : Bool
  pub exchange_url_ok : Bool
  pub timeout : Option ℕ
  pub refresh_numerator : Option ℕ
  pub refresh_denominator : ℕ
  pub safety_margin : Option ℕ
  pub backoff_floor : Option ℕ
  pub backoff_ceiling : Option ℕ

-- The limits of the client that New returns.
pub record Limits : Type 0 where
  pub timeout : ℕ
  pub numerator : ℕ
  pub denominator : ℕ
  pub margin : ℕ
  pub floor : ℕ
  pub ceiling : ℕ

-- A duration with its default, refused outside its bounds.
abbrev bounded : Option ℕ → ℕ → ℕ → ℕ → Field → Field ⊎ ℕ
bounded none default low high f = inl f
bounded (some n) default low high f =
    let v = if n == 0 then default else n in if ltb v low || ltb high v then inl f else inr v

-- `!(fraction > 0 && fraction < 1)`; 0 is the default, a half.
abbrev fraction_of : Option ℕ → ℕ → Field ⊎ (ℕ × ℕ)
fraction_of none d = inl refresh_fraction
fraction_of (some n) d =
    if n == 0 then inr (1, 2) else if ltb n d then inr (n, d) else inl refresh_fraction

infixl 5 ◌>>=◌ ◌>>◌
abbrev ◌>>=◌ {ℓ κ} : {A : Type ℓ} {B : Type κ} → Field ⊎ A → (A → Field ⊎ B) → Field ⊎ B
inl f >>= k = inl f
inr a >>= k = k a

abbrev ◌>>◌ {ℓ} : {B : Type ℓ} → Field ⊎ Unit {0} → Field ⊎ B → Field ⊎ B
m >> k = m >>= λ _. k

abbrev check : Bool → Field → Field ⊎ Unit {0}
check true f = inr tt
check false f = inl f

-- `New`
unfoldable pub new : Config → Field ⊎ Limits
new cfg = do
  check cfg.has_subject subject
  check cfg.transport_ok transport
  check cfg.issuer_ok issuer
  check cfg.exchange_url_ok exchange_url
  t ← bounded cfg.timeout (5_000 * millisecond) min_timeout max_timeout timeout
  part ← fraction_of cfg.refresh_numerator cfg.refresh_denominator
  margin ← bounded cfg.safety_margin (30_000 * millisecond) 0 max_safety_margin safety_margin
  floor ← bounded cfg.backoff_floor (1_000 * millisecond) 0 max_backoff backoff_floor
  ceiling ← bounded cfg.backoff_ceiling (30_000 * millisecond) floor max_backoff backoff_ceiling
  inr (record {
    timeout = t;
    numerator = part.0;
    denominator = part.1;
    margin = margin;
    floor = floor;
    ceiling = ceiling;
  })

-- The limits that New accepts: Timeout is between 10 ms and 30 s, the refresh fraction strictly between 0
-- and 1, SafetyMargin more than 0 and at most 120 s, and the backoff more than 0 at its floor, which is at
-- most its ceiling, which is at most five minutes.
pub new-bounds :
    (cfg : Config) (l : Limits)
    → new cfg ≡ inr l
    → (min_timeout ≤ l.timeout)
      × (l.timeout ≤ max_timeout)
      × (0 < l.numerator)
      × (l.numerator < l.denominator)
      × (0 < l.margin)
      × (l.margin ≤ max_safety_margin)
      × (0 < l.floor)
      × (l.floor ≤ l.ceiling)
      × (l.ceiling ≤ max_backoff)
unfolding new
new-bounds cfg l h = (
  ground arith,
  ground arith,
  ground arith,
  ground arith,
  ground arith,
  ground arith,
  ground arith,
  ground arith,
  ground arith,
)
