-- ===== src/Authverify/Compact.antt =====
-- Compact tokens: splitCompact and base64URLAlphabet of authverify/accesstoken_wire.go, and what the
-- three protected headers share (parseAccessHeader, parseWorkloadHeader, parseServiceAccountHeader).
use dev_health_go.Base.{
  ℕ, Str, codes, eq_str, split, length, List, [], ◌∷◌, Bool, ◌&&◌, leb, all, Option, none, some,
}
use dev_health_go.Base.Options.{◌>>=◌, ◌>>◌, guard}
use dev_health_go.Platform.{Platform}
use dev_health_go.Authverify.Patterns.{is_url_char, is_kid}
use dev_health_go.Authverify.Document.{closed_set, string_member, any_text, decode_object}

abbrev pub max_token_bytes : ℕ
max_token_bytes = 8192

-- `base64URLAlphabet`
abbrev pub base64_url_alphabet : Str → Bool
base64_url_alphabet s = all is_url_char s

abbrev pub three : List Str → Option (Str × Str × Str)
three (h ∷ c ∷ s ∷ []) = some (h, c, s)
three _ = none

abbrev pub header_members : List Str
header_members = codes "alg" ∷ codes "typ" ∷ codes "kid" ∷ []

abbrev pub alg_ed_dsa : Str
alg_ed_dsa = codes "EdDSA"

module _ (p : Platform) where
  -- `splitCompact`
  unfoldable pub split_compact : Str → Option (Str × Str × Str)
  unfolding split
  split_compact token = do
    guard (leb (length token) max_token_bytes && eq_str (p.trim_space token) token)
    parts ← three (split b'.' token)
    guard (all base64_url_alphabet (split b'.' token))
    some parts

  -- The header of a class of tokens: exactly alg, typ and kid, and its kid.
  unfoldable pub parse_header : Str → Str → Option Str
  unfolding decode_object
  parse_header token_type raw = do
    o ← decode_object p raw
    guard (closed_set o header_members header_members)
    alg ← string_member o (codes "alg") any_text
    guard (eq_str alg alg_ed_dsa)
    typ ← string_member o (codes "typ") any_text
    guard (eq_str typ token_type)
    string_member o (codes "kid") is_kid
