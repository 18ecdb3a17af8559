-- ===== src/Pep/Cache/Invariant.antt =====
-- What holds of the cache between two calls (pep/cache.go).
use dev_health_go.Base.{
  ℕ, suc, zero, ◌+◌, ◌-◌, ◌≤◌, ◌≡◌, refl, length, List, [], ◌∷◌, Bool, true, false, All, All-imp,
  arith, Option, some, if◌then◌else◌, inl, inr, Bool-cases, Option-cases, ltb, sym, ap, if_cases,
  not, ◌&&◌, subst,
}
use dev_health_go.Pep.Decision.{Decision, is_local_deny}
use dev_health_go.Pep.Cache.{
  Entry, Cache, find, remove, put, kill, sweep, without, or_blank, blank, evict, evict_back,
  bound_from, bound, get, get_found, is_late, fresh, raise_watermark, entomb, bury, place, offer,
  is_stale, store, record_verdict, observe, invalidate_all, close,
}
use dev_health_go.Pep.Cache.Entries.{
  live_count, Differs, Distinct, find-All, find_key, remove-All, put-All, front-All,
  remove-Distinct, remove-Differs, put-Distinct, front-Distinct, sweep-Distinct, live_count-remove,
  live_count-put, swept_lem, live_count-front, length-front,
}

-- What may be served is an allow that the caller of the cache vouches for (`P`, of the key, the
-- decision and the time it was asked), cacheable, and not below the watermark.
pub record IsServable (P : ℕ → Decision → ℕ → Type 0) (w : ℕ) (e : Entry) : Type 0 where
  pub vouched : e.live ≡ true → P e.key e.decision e.asked
  pub allow : e.live ≡ true → e.decision.allowed ≡ true
  pub cacheable : e.live ≡ true → e.decision.cacheable ≡ true
  pub current : e.live ≡ true → w ≤ e.decision.policy_revision

length-evict_back :
    (c : Cache) (l : List Entry)
    → c.lru ≡ l
    → (length (evict_back c l).lru ≡ length l - 1) × ((evict_back c l).max_entries ≡ c.max_entries)
unfolding evict_back evict
length-evict_back c [] h = rw h (omega arith)
length-evict_back c (e ∷ l) h = (omega (arith, length-front e l), refl)

or_blank_key : (key : ℕ) (l : List Entry) → (or_blank key (find key l)).key ≡ key
or_blank_key key l = elim (Option-cases (find key l)) [
  | inl q ↦ rw q refl
  | inr (e, q) ↦ rw q (find_key key l e q)
]

pub buried_key : (key : ℕ) (l : List Entry) → (kill (or_blank key (find key l))).key ≡ key
buried_key key l = ground (arith, or_blank_key key l)

live_count-kill :
    (k : ℕ) (l : List Entry) (e : Entry)
    → find k l ≡ some e
    → live_count (put (kill e) l) + (if e.live then 1 else 0) ≡ live_count l
live_count-kill k l e found =
    let q : (kill e).key ≡ k = ground (arith, find_key k l e found) in
    let dark : ◌≡◌ {A = ℕ} (if (kill e).live then 1 else 0) 0 = ground arith in
    omega (arith, dark, live_count-put (kill e) l e (subst (λ j. find j l ≡ some e) (sym q) found))

without_live : (e : Entry) (n : ℕ) → without e n ≡ n - (if e.live then 1 else 0)
without_live e n = ground arith

pub fresh_current :
    (c : Cache) (e : Entry) (now : ℕ)
    → fresh c e now ≡ true
    → c.watermark ≤ e.decision.policy_revision
unfolding fresh
fresh_current c e now h = ground arith

closed-raise : (c : Cache) (rev : ℕ) → c.closed ≡ false → (raise_watermark c rev).closed ≡ false
unfolding raise_watermark
closed-raise c rev h = ground arith

module _ (P : ℕ → Decision → ℕ → Type 0) where
  -- One entry for a key, as many live ones as `allows` says, all servable, none once closed.
  pub record Inv (c : Cache) : Type 0 where
    pub distinct : Distinct c.lru
    pub counted : c.allows ≡ live_count c.lru
    pub servable : All (IsServable P c.watermark) c.lru
    pub emptied : c.closed ≡ true → c.lru ≡ []

  pub IsServable-of_not_live : (w : ℕ) (e : Entry) → e.live ≡ false → IsServable P w e
  IsServable-of_not_live w e d = record {
    vouched = λ h. absurd (ground arith);
    allow = λ h. absurd (ground arith);
    cacheable = λ h. absurd (ground arith);
    current = λ h. absurd (ground arith);
  }

  IsServable-kill : (w : ℕ) (e : Entry) → IsServable P w (kill e)
  IsServable-kill w e = IsServable-of_not_live w (kill e) (ground arith)

  evict-Inv : (c : Cache) (e : Entry) (l : List Entry) → c.lru ≡ e ∷ l → Inv c → Inv (evict c e l)
  unfolding evict
  evict-Inv c e l h v =
      let d : Distinct (e ∷ l) = rw h at v.distinct in
      let s : All (IsServable P c.watermark) (e ∷ l) = rw h at v.servable in
      record {
        distinct = front-Distinct e l d;
        counted = ground (arith, live_count-front e l);
        servable = front-All (IsServable P c.watermark) e l s.0 s.1;
        emptied = λ q. absurd (ground (arith, v.emptied q));
      }

  evict_back-Inv : (c : Cache) (l : List Entry) → c.lru ≡ l → Inv c → Inv (evict_back c l)
  unfolding evict_back
  evict_back-Inv c [] h v = v
  evict_back-Inv c (e ∷ l) h v = evict-Inv c e l h v

  bound_from-Inv :
      (n : ℕ) (c : Cache)
      → length c.lru ≤ n + c.max_entries
      → Inv c
      → Inv (bound_from n c) × (length (bound_from n c).lru ≤ (bound_from n c).max_entries)
  unfolding bound_from
  bound_from-Inv zero c h v = (v, omega arith)
  bound_from-Inv (suc n) c h v = elim (Bool-cases (ltb c.max_entries (length c.lru))) [
    | inl over ↦ rw over (
        bound_from-Inv n (evict_back c c.lru) (ground (arith, length-evict_back c c.lru refl))
          (evict_back-Inv c c.lru refl v))
    | inr fits ↦ rw fits (v, ground arith)
  ]

  -- After `bound` the list is within `max_entries`, and the rest of the invariant is kept.
  pub bound-Inv :
      (c : Cache) → Inv c → Inv (bound c) × (length (bound c).lru ≤ (bound c).max_entries)
  unfolding bound
  bound-Inv c v = bound_from-Inv (length c.lru) c (omega arith) v

  sweep-IsServable :
      (w rev : ℕ) (l : List Entry) → All (IsServable P w) l → All (IsServable P rev) (sweep rev l)
  unfolding sweep
  sweep-IsServable w rev [] a = tt
  sweep-IsServable w rev (e ∷ l) (s, a) = (settled, sweep-IsServable w rev l a)
    where
      settled : IsServable P rev (if is_stale rev e then kill e else e)
      settled = elim (Bool-cases (is_stale rev e)) [
        | inl old ↦ rw old (IsServable-kill rev e)
        | inr new ↦ rw new (record {
          vouched = s.vouched;
          allow = s.allow;
          cacheable = s.cacheable;
          current = λ h. ground arith;
        })
      ]

  pub raise_watermark-Inv : (c : Cache) (rev : ℕ) → Inv c → Inv (raise_watermark c rev)
  unfolding raise_watermark
  raise_watermark-Inv c rev v = elim (Bool-cases (ltb c.watermark rev)) [
    | inl up ↦ rw up (record {
      distinct = sweep-Distinct rev c.lru v.distinct;
      counted = omega (arith, v.counted, swept_lem rev c.lru c.allows 0);
      servable = sweep-IsServable c.watermark rev c.lru v.servable;
      emptied = λ h. ap (sweep rev) (v.emptied h);
    })
    | inr down ↦ rw down v
  ]

  or_blank-IsServable :
      (c : Cache) (key : ℕ) → Inv c → IsServable P c.watermark (or_blank key (find key c.lru))
  or_blank-IsServable c key v = elim (Option-cases (find key c.lru)) [
    | inl q ↦ rw q (IsServable-of_not_live c.watermark (blank key) refl)
    | inr (e, q) ↦ rw q (find-All (IsServable P c.watermark) key c.lru e q v.servable)
  ]

  bury-Inv : (c : Cache) (key : ℕ) → c.closed ≡ false → Inv c → Inv (bury c key)
  unfolding bury
  bury-Inv c key open_now v = record {
    distinct = (
      subst (λ k. All (Differs k) (remove key c.lru)) (sym (buried_key key c.lru))
          (remove-Differs key c.lru v.distinct),
      remove-Distinct key c.lru v.distinct,
    );
    counted = ground (arith, live_count-remove key c.lru, v.counted);
    servable = (
      IsServable-of_not_live c.watermark _ (ground arith),
      remove-All (IsServable P c.watermark) key c.lru v.servable,
    );
    emptied = λ h. absurd (ground arith);
  }

  place-Inv :
      (c : Cache) (e : Entry)
      → c.closed ≡ false
      → e.live ≡ true
      → IsServable P c.watermark e
      → Inv c
      → Inv (place c e)
  unfolding place
  place-Inv c e open_now l s v = record {
    distinct = (remove-Differs e.key c.lru v.distinct, remove-Distinct e.key c.lru v.distinct);
    counted = ground (arith, live_count-remove e.key c.lru, v.counted);
    servable = (s, remove-All (IsServable P c.watermark) e.key c.lru v.servable);
    emptied = λ h. absurd (ground arith);
  }

  entomb-Inv : (c : Cache) (key : ℕ) → c.closed ≡ false → Inv c → Inv (entomb c key)
  unfolding entomb
  entomb-Inv c key open_now v = (bound-Inv (bury c key) (bury-Inv c key open_now v)).0

  store-Inv :
      (c : Cache) (key : ℕ) (d : Decision) (asked now : ℕ)
      → c.closed ≡ false
      → P key d asked
      → d.allowed ≡ true
      → d.cacheable ≡ true
      → Inv c
      → Inv (store c key d asked now)
  unfolding store offer
  store-Inv c key d asked now open_now p a q v =
      elim (Bool-cases (fresh c (offer c key d asked) now)) [
        | inl new ↦
            rw new
              (bound-Inv _ (
                place-Inv c (offer c key d asked) open_now refl
                  (record {
                    vouched = λ h. p;
                    allow = λ h. a;
                    cacheable = λ h. q;
                    current = λ h. fresh_current c (offer c key d asked) now new;
                  })
                  v)).0
        | inr old ↦ rw old v
      ]

  record_verdict-Inv :
      (c : Cache) (key : ℕ) (d : Decision) (stamp asked now : ℕ)
      → c.closed ≡ false
      → P key d asked
      → Inv c
      → Inv (record_verdict c key d stamp asked now)
  unfolding record_verdict
  record_verdict-Inv c key d stamp asked now open_now p v =
      elim (Bool-cases (d.allowed && d.cacheable)) [
        | inl yes_allow ↦ elim (Bool-cases (is_late c key stamp)) [
          | inl late ↦ rw (yes_allow, late) v
          | inr early ↦
              rw (yes_allow, early)
                (store-Inv c key d asked now open_now p (ground arith) (ground arith) v)
        ]
        | inr no_allow ↦ rw no_allow (entomb-Inv c key open_now v)
      ]

  -- Recording an answer keeps the invariant, whatever the answer, the stamp and the clock.
  pub observe-Inv :
      (c : Cache) (key : ℕ) (d : Decision) (stamp asked now : ℕ)
      → P key d asked
      → Inv c
      → Inv (observe c key d stamp asked now)
  unfolding observe
  observe-Inv c key d stamp asked now p v =
      if_cases Inv (is_local_deny d) (λ _. v)
        λ _.
          if_cases Inv c.closed (λ _. v)
            λ open_now.
              record_verdict-Inv (raise_watermark c d.policy_revision) key d stamp asked now
                (closed-raise c d.policy_revision open_now) p
                (raise_watermark-Inv c d.policy_revision v)

  pub invalidate_all-Inv : (c : Cache) → Inv c → Inv (invalidate_all c).0
  unfolding invalidate_all
  invalidate_all-Inv c v =
      if_cases (λ (r : Cache × Bool). Inv r.0) c.closed (λ _. v)
        λ _. record { distinct = tt; counted = refl; servable = tt; emptied = λ h. refl }

  pub close-Inv : (c : Cache) → Inv (close c)
  unfolding close
  close-Inv c = record { distinct = tt; counted = refl; servable = tt; emptied = λ h. refl }

  get_found-Inv :
      (c : Cache) (key now : ℕ) (e : Entry)
      → find key c.lru ≡ some e
      → Inv c
      → Inv (get_found c key now e).0
  unfolding get_found
  get_found-Inv c key now e found v =
      if_cases Result c.closed (λ _. v)
        λ open_now.
          if_cases Result (not e.live) (λ _. v)
            λ alive.
              if_cases Result (not (fresh c e now))
                (λ _. record {
                  distinct = put-Distinct (kill e) c.lru v.distinct;
                  counted = omega (
                    arith,
                    v.counted,
                    without_live e c.allows,
                    live_count-kill key c.lru e found,
                  );
                  servable =
                      put-All (IsServable P c.watermark) (kill e) c.lru
                        (IsServable-kill c.watermark e) v.servable;
                  emptied = λ h. absurd (ground arith);
                })
                (λ _. record {
                  distinct = (
                    subst (λ k. All (Differs k) (remove key c.lru))
                        (sym (find_key key c.lru e found)) (remove-Differs key c.lru v.distinct),
                    remove-Distinct key c.lru v.distinct,
                  );
                  counted = ground (arith, live_count-remove key c.lru, v.counted, found);
                  servable = (
                    find-All (IsServable P c.watermark) key c.lru e found v.servable,
                    remove-All (IsServable P c.watermark) key c.lru v.servable,
                  );
                  emptied = λ h. absurd (ground arith);
                })
    where
      Result : Cache × Option Decision → Type 0
      Result r = Inv r.0

  pub get-Inv : (c : Cache) (key now : ℕ) → Inv c → Inv (get c key now).0
  unfolding get
  get-Inv c key now v = elim (Option-cases (find key c.lru)) [
    | inl missed ↦ rw (missed, get) v
    | inr (e, found) ↦ rw (found, get) (get_found-Inv c key now e found v)
  ]

IsServable-mono :
    (P Q : ℕ → Decision → ℕ → Type 0)
    → ((key : ℕ) (d : Decision) (asked : ℕ) → P key d asked → Q key d asked)
    → (w : ℕ) (e : Entry) → IsServable P w e
    → IsServable Q w e
IsServable-mono P Q f w e s = record {
  vouched = λ h. f e.key e.decision e.asked (s.vouched h);
  allow = s.allow;
  cacheable = s.cacheable;
  current = s.current;
}

pub Inv-mono :
    (P Q : ℕ → Decision → ℕ → Type 0)
    → ((key : ℕ) (d : Decision) (asked : ℕ) → P key d asked → Q key d asked)
    → (c : Cache) → Inv P c
    → Inv Q c
Inv-mono P Q f c v = record {
  distinct = v.distinct;
  counted = v.counted;
  servable = All-imp (IsServable-mono P Q f c.watermark) c.lru v.servable;
  emptied = v.emptied;
}
