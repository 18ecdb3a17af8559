-- ===== src/RepoKey.antt =====
-- repokey/repokey.go: the canonical repository key. A key is a byte string; the two patterns are
-- read as recognisers over the segments between slashes.
pub mod Laws
mod Tests
use dev_health_go.Base.{
  ℕ, Str, codes, eq_str, split, length, List, [], ◌∷◌, Bool, true, false, ◌&&◌, ◌||◌, ◌==◌, leb,
  is_lower, is_digit, all, if◌then◌else◌,
}

abbrev pub max_segments : ℕ
max_segments = 20

abbrev pub max_bytes : ℕ
max_bytes = 255

-- [a-z0-9]
abbrev pub is_alnum : ℕ → Bool
is_alnum c = is_lower c || is_digit c

-- [a-z0-9._-]
abbrev pub is_inner : ℕ → Bool
is_inner c = is_alnum c || c == b'.' || c == b'_' || c == b'-'

-- [a-z0-9._-]*[a-z0-9]
abbrev pub ends_alnum : Str → Bool
ends_alnum [] = false
ends_alnum (c ∷ []) = is_alnum c
ends_alnum (c ∷ d ∷ s) = is_inner c && ends_alnum (d ∷ s)

-- [a-z0-9](?:[a-z0-9._-]{0,98}[a-z0-9])?
pub group : Str → Bool
group [] = false
group (c ∷ []) = is_alnum c
group (c ∷ d ∷ s) = is_alnum c && ends_alnum (d ∷ s) && leb (length s) 98

-- [a-z0-9]|[a-z0-9.][a-z0-9._-]{0,98}[a-z0-9]
pub last : Str → Bool
last [] = false
last (c ∷ []) = is_alnum c
last (c ∷ d ∷ s) = (is_alnum c || c == b'.') && ends_alnum (d ∷ s) && leb (length s) 98

-- group(/group)*/last: every segment but the last is a group.
pub body_segments : List Str → Bool
unfolding group last
body_segments [] = false
body_segments (s ∷ []) = last s
body_segments (s ∷ t ∷ ss) = group s && body_segments (t ∷ ss)

-- The pattern `body`: 2 to `max_segments` segments. The source unrolls the repeat to
-- max_segments - 2 optional groups between the first and the last.
unfoldable pub body : Str → Bool
unfolding body_segments split
body key =
    let segments = split b'/' key in
    leb 2 (length segments) && leb (length segments) max_segments && body_segments segments

unfoldable pub valid_slug : Str → Bool
unfolding body
valid_slug key = leb (length key) max_bytes && body key

unfoldable pub valid : Str → Bool
unfolding body eq_str
valid key = leb (length key) max_bytes && (body key || eq_str key (codes "*"))
