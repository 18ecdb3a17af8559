-- ===== src/Workload/RequestKey.antt =====
-- The key of a slot: requestKey and printable of workloadtoken/client.go. slices.Sort is an argument.
pub mod Injective
mod Tests
use dev_health_go.Base.{
  ℕ, ◌+◌, Str, codes, eq_str, is_empty, length, List, [], ◌∷◌, ◌++◌, Bool, true, false, not, ◌&&◌,
  ◌||◌, ltb, leb, all, in_range, Option, none, some, if◌then◌else◌,
}
use dev_health_go.Base.Options.{◌>>=◌, ◌>>◌, guard}
use dev_health_go.Workload.Exchange.{join}

abbrev pub max_audience_bytes : ℕ
max_audience_bytes = 64

abbrev pub max_scope_actions : ℕ
max_scope_actions = 64

abbrev pub max_action_bytes : ℕ
max_action_bytes = 128

-- `printable`, on bytes: a byte over 0x7e is of a rune that is refused.
unfoldable pub printable : Str → Bool
printable value = all (in_range b'!' b'~') value

-- Neither empty, nor long, nor with a space.
abbrev pub is_word : ℕ → Str → Bool
is_word most s = not (is_empty s) && not (ltb most (length s)) && printable s

-- `slices.Compact`
unfoldable pub compact : List Str → List Str
compact [] = []
compact (s ∷ []) = s ∷ []
compact (s ∷ t ∷ ss) = let rest = compact (t ∷ ss) in if eq_str s t then rest else s ∷ rest

-- `requestKey`: the key and the actions that are sent.
unfoldable pub request_key : (List Str → List Str) → Str → List Str → Option (Str × List Str)
unfolding compact printable join
request_key sort audience scope = do
  guard (is_word max_audience_bytes audience)
  guard (not (ltb max_scope_actions (length scope)))
  guard (all (is_word max_action_bytes) scope)
  some (audience ++ b' ' ∷ join (compact (sort scope)), compact (sort scope))
