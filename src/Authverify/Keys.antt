-- ===== src/Authverify/Keys.antt =====
-- Key documents: parseJWKSDocument, parseJWKS, validKeyID and Keys of authverify/jwks.go. The
-- binding of a document to its struct by encoding/json, retire_after included, is an argument; the
-- keys stand in the document's order.
pub mod Sound
mod Tests
use dev_health_go.Base.{
  ℕ, Str, codes, eq_str, is_empty, length, List, [], ◌∷◌, ◌++◌, map, Bool, true, false, not, ◌&&◌,
  ◌||◌, ◌==◌, ltb, leb, Option, none, some, is_some,
}
use dev_health_go.Base.Options.{◌>>=◌, ◌>>◌, guard}
use dev_health_go.Platform.{Platform}
use dev_health_go.Pep.Json.{contains}
use dev_health_go.Authverify.Document.{scan_value}
use dev_health_go.Authverify.Verifier.{public_key_size}

pub record Jwk : Type 0 where
  pub key_type : Str
  pub curve : Str
  pub key_id : Str
  pub use_of : Str
  pub alg : Str
  pub x : Str
  pub retire_after : Option ℕ

pub record JwksKey : Type 0 where
  pub public : Str
  pub retire_after : Option ℕ

abbrev pub KeySet : Type 0
KeySet = List (Str × JwksKey)

abbrev pub kids : KeySet → List Str
kids [] = []
kids ((kid, key) ∷ rest) = kid ∷ kids rest

module _ (p : Platform) where
  -- `validKeyID`
  unfoldable pub valid_key_id : Str → Bool
  valid_key_id value = not (is_empty (p.trim_space value)) && leb (length (p.trim_space value)) 256

  -- What a candidate must be, besides its public key.
  abbrev pub is_ed25519 : Jwk → Bool
  is_ed25519 k =
      eq_str k.key_type (codes "OKP")
      && eq_str k.curve (codes "Ed25519")
      && eq_str k.alg (codes "EdDSA")
      && (is_empty k.use_of || eq_str k.use_of (codes "sig"))
      && valid_key_id k.key_id

  -- One round of the loop: the key of a candidate, with the ids before it.
  unfoldable pub key_entry : Bool → List Str → Jwk → Option JwksKey
  unfolding valid_key_id
  key_entry admit_retire_after seen k = do
    key ← p.decode_loose k.x
    guard (is_ed25519 k && length key == public_key_size)
    guard (not (contains seen k.key_id))
    guard (not (is_some k.retire_after) || admit_retire_after)
    some record { public = key; retire_after = k.retire_after }

  -- The loop over the candidates.
  unfoldable pub key_entries : Bool → List Str → List Jwk → Option KeySet
  unfolding key_entry
  key_entries admit seen [] = some []
  key_entries admit seen (k ∷ ks) = do
    key ← key_entry admit seen k
    rest ← key_entries admit (k.key_id ∷ seen) ks
    some ((k.key_id, key) ∷ rest)

  abbrev not_none : List Jwk → Bool
  not_none [] = false
  not_none (k ∷ ks) = true

  -- `parseJWKSDocument`
  unfoldable pub parse_jwks_document : (Str → Option (List Jwk)) → Str → Bool → Option KeySet
  unfolding key_entries
  parse_jwks_document bind encoded admit_retire_after = do
    v ← p.read encoded
    guard (scan_value p v)
    document ← bind encoded
    guard (not_none document)
    key_entries admit_retire_after [] document

  abbrev pub publics : KeySet → List (Str × Str)
  publics [] = []
  publics ((kid, key) ∷ rest) = (kid, key.public) ∷ publics rest

  abbrev pub publics_of : Option KeySet → Option (List (Str × Str))
  publics_of none = none
  publics_of (some set) = some (publics set)

  -- `parseJWKS`: the document of a key server.
  unfoldable pub parse_jwks : (Str → Option (List Jwk)) → Str → Option (List (Str × Str))
  unfolding parse_jwks_document
  parse_jwks bind encoded = publics_of (parse_jwks_document bind encoded false)

  -- `Keys`, of the file's text; none where it cannot be read.
  unfoldable pub file_keys : (Str → Option (List Jwk)) → Option Str → Option (List (Str × Str))
  unfolding parse_jwks_document
  file_keys bind file = do encoded ← file; publics_of (parse_jwks_document bind encoded true)
