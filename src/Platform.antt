-- ===== src/Platform.antt =====
-- What authverify/ and workloadtoken/ take from the standard library: each field is one of its functions.
use dev_health_go.Base.{Str, Bool, Option}
use dev_health_go.Pep.Json.{Value}

pub record Platform : Type 0 where
  pub equal_fold : Str → Str → Bool  -- strings.EqualFold
  pub trim_space : Str → Str  -- strings.TrimSpace
  pub decode_strict : Str → Option Str  -- base64.RawURLEncoding.Strict().DecodeString
  pub decode_loose : Str → Option Str  -- base64.RawURLEncoding.DecodeString
  pub read : Str → Option Value  -- one JSON value and nothing after it, as its tokens
  pub media_type : Str → Option Str  -- mime.ParseMediaType
  pub verify_signature : Str → Str → Str → Bool  -- ed25519.Verify: key, message, signature
