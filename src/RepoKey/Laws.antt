-- ===== src/RepoKey/Laws.antt =====
-- What a valid repository key cannot hold (repokey/repokey.go).
use dev_health_go.Base.{
  ◌≤◌, ◌≡◌, ◌≢◌, ◌⊎◌, refl, Str, codes, eq_str→eq, split, length, List, [], ◌∷◌, true, false,
  and-true, All, arith,
}
use dev_health_go.RepoKey.{
  group, last, body_segments, body, valid_slug, valid, max_bytes, max_segments,
}

-- A segment that names something: not empty, not "." and not "..", at most 100 bytes.
pub record IsName (s : Str) : Type 0 where
  pub not_empty : s ≢ []
  pub not_dot : s ≢ b'.' ∷ []
  pub not_dots : s ≢ b'.' ∷ b'.' ∷ []
  pub bounded : length s ≤ 100

group-IsName : (s : Str) → group s ≡ true → IsName s
unfolding group
group-IsName [] h = absurd (ground arith)
group-IsName (c ∷ []) h = record {
  not_empty = λ e. cc;
  not_dot = λ e. ground arith;
  not_dots = λ e. cc;
  bounded = omega arith;
}
group-IsName (c ∷ d ∷ s) h = record {
  not_empty = λ e. cc;
  not_dot = λ e. cc;
  not_dots = λ e. ground arith;
  bounded = ground arith;
}

last-IsName : (s : Str) → last s ≡ true → IsName s
unfolding last
last-IsName [] h = absurd (ground arith)
last-IsName (c ∷ []) h = record {
  not_empty = λ e. cc;
  not_dot = λ e. ground arith;
  not_dots = λ e. cc;
  bounded = omega arith;
}
last-IsName (c ∷ d ∷ s) h = record {
  not_empty = λ e. cc;
  not_dot = λ e. cc;
  not_dots = λ e. ground arith;
  bounded = ground arith;
}

body_segments-IsName : (ss : List Str) → body_segments ss ≡ true → All IsName ss
unfolding body_segments
body_segments-IsName [] h = tt
body_segments-IsName (s ∷ []) h = (last-IsName s h, tt)
body_segments-IsName (s ∷ t ∷ ss) h =
    let (here, later) = and-true _ _ h in (group-IsName s here, body_segments-IsName (t ∷ ss) later)

-- What `ValidSlug` promises of a key.
pub record IsSafeKey (key : Str) : Type 0 where
  pub fits : length key ≤ max_bytes
  pub nested : 2 ≤ length (split b'/' key)
  pub shallow : length (split b'/' key) ≤ max_segments
  pub names : All IsName (split b'/' key)

-- A key that ValidSlug accepts has at most 255 bytes and 2 to 20 segments between its slashes, and
-- every segment is non-empty, is neither "." nor "..", and has at most 100 bytes.
pub valid_slug-IsSafeKey : (key : Str) → valid_slug key ≡ true → IsSafeKey key
unfolding valid_slug body
valid_slug-IsSafeKey key h = record {
  fits = ground arith;
  nested = ground arith;
  shallow = ground arith;
  names = body_segments-IsName (split b'/' key) (ground arith);
}

-- Valid accepts exactly the keys that ValidSlug accepts and the wildcard "*", and the wildcard is not
-- one of the keys that ValidSlug accepts.
pub valid_cases :
    (key : Str)
    → (valid key ≡ true → (valid_slug key ≡ true) ⊎ (key ≡ codes "*"))
      × (valid_slug key ≡ true → valid key ≡ true)
      × (key ≡ codes "*" → (valid key ≡ true) × (valid_slug key ≡ false))
unfolding valid valid_slug
valid_cases key = (λ h. accepted h, λ h. ground arith, λ e. (rw e refl, rw e refl))
  where
    accepted : valid key ≡ true → (valid_slug key ≡ true) ⊎ (key ≡ codes "*")
    accepted h = ground (arith, eq_str→eq key (codes "*"))
