-- ===== src/Authverify/Patterns.antt =====
-- The patterns of authverify/accesstoken_wire.go and authverify/service_account_token.go, as recognisers
-- over the bytes.
use dev_health_go.Base.{
  ℕ, Str, codes, eq_str, split, length, List, [], ◌∷◌, Bool, true, false, ◌&&◌, ◌||◌, ◌==◌, leb,
  all, is_lower, is_upper, is_digit, in_range, if◌then◌else◌, Option, none, some,
}

-- [A-Za-z0-9_-]
abbrev pub is_url_char : ℕ → Bool
is_url_char c = is_upper c || is_lower c || is_digit c || c == b'-' || c == b'_'

-- ^[!-~]{1,256}$
unfoldable pub is_kid : Str → Bool
is_kid s = leb 1 (length s) && leb (length s) 256 && all (in_range b'!' b'~') s

-- A text that starts with a prefix of four bytes: the rest.
abbrev pub after_four : Str → Str → Option Str
after_four prefix (a ∷ b ∷ c ∷ d ∷ s) = if eq_str (a ∷ b ∷ c ∷ d ∷ []) prefix then some s else none
after_four prefix _ = none

-- Between `low` and `high` characters of the base64url alphabet.
abbrev pub url_chars : ℕ → ℕ → Str → Bool
url_chars low high s = leb low (length s) && leb (length s) high && all is_url_char s

abbrev pub holds : (Str → Bool) → Option Str → Bool
holds p none = false
holds p (some s) = p s

-- ^prn_[A-Za-z0-9_-]+$
unfoldable pub is_subject : Str → Bool
unfolding eq_str
is_subject s = holds (λ r. leb 1 (length r) && all is_url_char r) (after_four (codes "prn_") s)

-- ^ses_[A-Za-z0-9_-]{22,64}$
unfoldable pub is_session : Str → Bool
unfolding eq_str
is_session s = holds (url_chars 22 64) (after_four (codes "ses_") s)

-- ^[A-Za-z0-9_-]{22,64}$
unfoldable pub is_jti : Str → Bool
is_jti s = url_chars 22 64 s

-- ^crd_[A-Za-z0-9_-]{1,64}$
unfoldable pub is_credential_id : Str → Bool
unfolding eq_str
is_credential_id s = holds (url_chars 1 64) (after_four (codes "crd_") s)

-- [0-9a-f]
abbrev is_hex : ℕ → Bool
is_hex c = is_digit c || in_range b'a' b'f' c

-- [0-9a-f]{n}
abbrev hex_group : ℕ → Str → Bool
hex_group n s = length s == n && all is_hex s

abbrev hex_groups : List ℕ → List Str → Bool
hex_groups [] [] = true
hex_groups (n ∷ ns) (s ∷ ss) = hex_group n s && hex_groups ns ss
hex_groups _ _ = false

-- ^[0-9a-f]{8}-[0-9a-f]{4}-[0-9a-f]{4}-[0-9a-f]{4}-[0-9a-f]{12}$
unfoldable pub is_org_id : Str → Bool
unfolding split
is_org_id s = hex_groups (8 ∷ 4 ∷ 4 ∷ 4 ∷ 12 ∷ []) (split b'-' s)

-- [a-z0-9]
abbrev is_alnum : ℕ → Bool
is_alnum c = is_lower c || is_digit c

-- [a-z0-9.-]*[a-z0-9]
abbrev ends_alnum : Str → Bool
ends_alnum [] = false
ends_alnum (c ∷ []) = is_alnum c
ends_alnum (c ∷ d ∷ s) = (is_alnum c || c == b'.' || c == b'-') && ends_alnum (d ∷ s)

-- [a-z0-9]([a-z0-9.-]{0,251}[a-z0-9])?
abbrev is_host : Str → Bool
is_host [] = false
is_host (c ∷ []) = is_alnum c
is_host (c ∷ d ∷ s) = is_alnum c && ends_alnum (d ∷ s) && leb (length s) 251

-- The host with its port, split at the colons.
abbrev is_authority : List Str → Bool
is_authority (h ∷ []) = is_host h
is_authority (h ∷ p ∷ []) = is_host h && leb 1 (length p) && leb (length p) 5 && all is_digit p
is_authority _ = false

-- [A-Za-z0-9_~-][A-Za-z0-9._~-]{0,63}
abbrev is_path_segment : Str → Bool
is_path_segment [] = false
is_path_segment (c ∷ s) =
    (is_url_char c || c == b'~')
    && leb (length s) 63
    && all (λ d. is_url_char d || d == b'~' || d == b'.') s

abbrev is_origin_path : List Str → Bool
is_origin_path [] = false
is_origin_path (authority ∷ path) =
    is_authority (split b':' authority) && leb (length path) 8 && all is_path_segment path

abbrev after_https : Str → Option Str
after_https (a ∷ b ∷ c ∷ d ∷ e ∷ f ∷ g ∷ h ∷ s) =
    if eq_str (a ∷ b ∷ c ∷ d ∷ e ∷ f ∷ g ∷ h ∷ []) (codes "https://") then some s else none
after_https _ = none

-- ^https://HOST(:[0-9]{1,5})?(/SEGMENT){0,8}$ : no character of a host or a segment is a slash or a
-- colon, so the pieces between them are the groups of the pattern.
unfoldable pub is_issuer : Str → Bool
unfolding eq_str split
is_issuer s = holds (λ r. is_origin_path (split b'/' r)) (after_https s)
