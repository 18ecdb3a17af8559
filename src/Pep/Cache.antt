-- ===== src/Pep/Cache.antt =====
-- pep/cache.go: the bounded allow-only decision cache, behind its mutex. A key is the 32-byte digest,
-- read as a number. The list holds what the LRU list holds, front first; the map of the source takes
-- each key to its element of that list, and the two change together (insert adds to both, bound
-- removes from both, clear empties both), so a lookup in the map is `find` in the list. Instants
-- are nanoseconds; the clock's reading is an argument of the operations that take one.
pub mod Entries
pub mod Invariant
pub mod Guards
pub mod Seq
pub mod Run
pub mod Late
pub mod Order
pub mod Settings
pub mod Size
mod Tests
use dev_health_go.Base.{
  ℕ, suc, zero, ◌+◌, ◌-◌, ◌%◌, ◌^◌, ◌≤◌, length, List, [], ◌∷◌, Bool, true, false, not, ◌&&◌, ◌||◌,
  ◌==◌, ltb, leb, Option, none, some, if◌then◌else◌, max,
}
use dev_health_go.Pep.Decision.{Decision, zero_decision, is_local_deny}

-- uint64 arithmetic
abbrev pub u64 : ℕ → ℕ
u64 n = n % 2 ^ 64

abbrev pub default_cache_entries : ℕ
default_cache_entries = 10000

-- 30 s
abbrev pub default_cache_ttl : ℕ
default_cache_ttl = 30_000_000_000

pub record Entry : Type 0 where
  pub key : ℕ
  pub live : Bool
  pub decision : Decision
  pub asked : ℕ
  pub guard : ℕ

pub record Cache : Type 0 where
  pub max_entries : ℕ
  pub max_ttl : ℕ
  pub lru : List Entry
  pub allows : ℕ
  pub seq : ℕ
  pub last_flush : ℕ
  pub floor : ℕ
  pub watermark : ℕ
  pub closed : Bool

pub find : ℕ → List Entry → Option Entry
find k [] = none
find k (e ∷ l) = if e.key == k then some e else find k l

-- The list without the element of the key: half of MoveToFront, and of a write through the element.
pub remove : ℕ → List Entry → List Entry
remove k [] = []
remove k (e ∷ l) = if e.key == k then l else e ∷ remove k l

-- A write through the element of the key, in place.
pub put : Entry → List Entry → List Entry
put e [] = []
put e (x ∷ l) = if x.key == e.key then e ∷ l else x ∷ put e l

abbrev pub dead : Entry → Entry
dead e = record e { live = false; decision = zero_decision }

-- `kill`, and `allows` after it
abbrev pub kill : Entry → Entry
kill e = if e.live then dead e else e

abbrev pub without : Entry → ℕ → ℕ
without e n = if e.live then n - 1 else n

-- NewCachedClient, behind its checks of the client: `none` is the startup error. A negative number is
-- refused by the source and has no counterpart here.
unfoldable pub new_cached_client : ℕ → ℕ → Option Cache
new_cached_client entries ttl =
    if ltb default_cache_ttl ttl
    then none
    else some (record {
      max_entries = if entries == 0 then default_cache_entries else entries;
      max_ttl = if ttl == 0 then default_cache_ttl else ttl;
      lru = [];
      allows = 0;
      seq = 0;
      last_flush = 0;
      floor = 0;
      watermark = 0;
      closed = false;
    })

abbrev pub clear : Cache → Cache
clear c = record c { lru = []; allows = 0 }

-- InvalidateAll and Invalidate: `false` is ErrCacheClosed.
unfoldable pub invalidate_all : Cache → Cache × Bool
invalidate_all c =
    if c.closed
    then (c, false)
    else (clear (record c { seq = u64 (c.seq + 1); last_flush = u64 (c.seq + 1) }), true)

unfoldable pub close : Cache → Cache
close c = clear (record c { closed = true })

-- Len
unfoldable pub len : Cache → ℕ
len c = c.allows

-- The stamp of `stamp`; its second result is the clock's reading.
abbrev pub stamp : Cache → ℕ
stamp c = c.seq

-- `age := now.Sub(e.asked)`: a clock that steps back makes it negative, which is not fresh.
unfoldable pub fresh : Cache → Entry → ℕ → Bool
fresh c e now =
    leb e.asked now
    && ltb (now - e.asked) c.max_ttl
    && ltb now e.decision.expires_at
    && leb c.watermark e.decision.policy_revision

-- `get` with the key's element in hand.
unfoldable pub get_found : Cache → ℕ → ℕ → Entry → Cache × Option Decision
get_found c key now e =
    if c.closed
    then (c, none)
    else if not e.live
    then (c, none)
    else if not (fresh c e now)
    then (record c { lru = put (kill e) c.lru; allows = without e c.allows }, none)
    else (record c { lru = e ∷ remove key c.lru }, some e.decision)

unfoldable pub get : Cache → ℕ → ℕ → Cache × Option Decision
get c key now = elim (find key c.lru) [ none ↦ (c, none) | some e ↦ get_found c key now e ]

-- The loop that a rising watermark runs over the list: every live entry below it is killed.
abbrev pub is_stale : ℕ → Entry → Bool
is_stale rev e = e.live && ltb e.decision.policy_revision rev

pub sweep : ℕ → List Entry → List Entry
sweep rev [] = []
sweep rev (e ∷ l) = (if is_stale rev e then kill e else e) ∷ sweep rev l

pub swept : ℕ → List Entry → ℕ → ℕ
swept rev [] n = n
swept rev (e ∷ l) n = swept rev l (if is_stale rev e then n - 1 else n)

unfoldable pub raise_watermark : Cache → ℕ → Cache
unfolding sweep swept
raise_watermark c rev =
    if ltb c.watermark rev
    then record c { watermark = rev; lru = sweep rev c.lru; allows = swept rev c.lru c.allows }
    else c

-- The list's back and what stands before it.
pub back : Entry → List Entry → Entry
back e [] = e
back e (x ∷ l) = back x l

pub front : Entry → List Entry → List Entry
front e [] = []
front e (x ∷ l) = e ∷ front x l

-- One round of the loop of `bound`.
pub evict : Cache → Entry → List Entry → Cache
unfolding back front
evict c e l = record c {
  lru = front e l;
  allows = without (back e l) c.allows;
  floor = if ltb c.floor (back e l).guard then (back e l).guard else c.floor;
}

pub evict_back : Cache → List Entry → Cache
unfolding evict
evict_back c [] = c
evict_back c (e ∷ l) = evict c e l

-- The loop.
pub bound_from : ℕ → Cache → Cache
unfolding evict_back
bound_from zero c = c
bound_from (suc n) c =
    let shorter = bound_from n (evict_back c c.lru) in
    if ltb c.max_entries (length c.lru) then shorter else c

-- Each round removes an element, so the list's length is enough fuel.
unfoldable pub bound : Cache → Cache
unfolding bound_from
bound c = bound_from (length c.lru) c

abbrev pub blank : ℕ → Entry
blank key = record { key = key; live = false; decision = zero_decision; asked = 0; guard = 0 }

-- The element of the key, or the one that `insert` would push.
abbrev pub or_blank : ℕ → Option Entry → Entry
or_blank key none = blank key
or_blank key (some e) = e

-- The branch of `observe` for a verdict that is no cacheable allow: a tombstone at the front.
unfoldable pub bury : Cache → ℕ → Cache
bury c key =
    let e : Entry = or_blank key (find key c.lru) in
    record c {
      seq = u64 (c.seq + 1);
      lru = record (kill e) { guard = u64 (c.seq + 1) } ∷ remove key c.lru;
      allows = without e c.allows;
    }

unfoldable pub entomb : Cache → ℕ → Cache
entomb c key = bound (bury c key)

-- The end of `observe` for a cacheable allow that may be stored.
unfoldable pub offer : Cache → ℕ → Decision → ℕ → Entry
offer c key d asked = record {
  key = key;
  live = true;
  decision = d;
  asked = asked;
  guard = (or_blank key (find key c.lru)).guard;
}

unfoldable pub place : Cache → Entry → Cache
place c e = record c {
  lru = e ∷ remove e.key c.lru;
  allows = if (or_blank e.key (find e.key c.lru)).live then c.allows else c.allows + 1;
}

unfoldable pub store : Cache → ℕ → Decision → ℕ → ℕ → Cache
store c key d asked now =
    let e = offer c key d asked in if not (fresh c e now) then c else bound (place c e)

-- `ok && stamp < guard`
abbrev pub is_guarded : ℕ → Option Entry → Bool
is_guarded stamp none = false
is_guarded stamp (some e) = ltb stamp e.guard

-- `stamp < c.lastFlush || stamp < c.floor`, and the guard of the key's element.
unfoldable pub is_late : Cache → ℕ → ℕ → Bool
is_late c key stamp =
    ltb stamp c.last_flush || ltb stamp c.floor || is_guarded stamp (find key c.lru)

-- `observe` after the watermark.
unfoldable pub record_verdict : Cache → ℕ → Decision → ℕ → ℕ → ℕ → Cache
record_verdict c key d stamp asked now =
    if not (d.allowed && d.cacheable)
    then entomb c key
    else if is_late c key stamp
    then c
    else store c key d asked now

unfoldable pub observe : Cache → ℕ → Decision → ℕ → ℕ → ℕ → Cache
observe c key d stamp asked now =
    if is_local_deny d
    then c
    else if c.closed
    then c
    else record_verdict (raise_watermark c d.policy_revision) key d stamp asked now
