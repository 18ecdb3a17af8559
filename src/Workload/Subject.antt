-- ===== src/Workload/Subject.antt =====
-- The subject token: Subject.read, readSubjectFile, compactJWS's use and canonicalBootstrap of
-- workloadtoken/exchange.go. What the system says of the opened file is a record.
pub mod Protected
mod Tests
use dev_health_go.Base.{
  ℕ, suc, zero, ◌+◌, ◌*◌, ◌/◌, ◌%◌, ◌≤◌, ◌≡◌, refl, ◌⊎◌, inl, inr, Str, codes, eq_str, is_empty,
  length, List, [], ◌∷◌, Bool, true, false, not, ◌&&◌, ◌||◌, ◌==◌, ltb, leb, all, Option, none,
  some, if◌then◌else◌, is_some, arith, Option-cases,
}
use dev_health_go.Base.Options.{◌>>=◌, ◌>>◌, guard}
use dev_health_go.Platform.{Platform}
use dev_health_go.Authverify.Patterns.{url_chars}
use dev_health_go.Workload.Token.{compact_jws}
use dev_health_go.Workload.Exchange.{token_type_jwt}

-- A file that is open; `contents` is none where it cannot be read.
pub record File : Type 0 where
  pub is_regular : Bool
  pub perm : ℕ
  pub owner : Option ℕ
  pub on_read_only_mount : Bool
  pub contents : Option Str

-- The process, and whether its system reports owners.
pub record Process : Type 0 where
  pub owners_reported : Bool
  pub uid : ℕ

-- `take`: what a LimitReader leaves.
abbrev pub take : ℕ → Str → Str
take zero s = []
take (suc n) [] = []
take (suc n) (c ∷ s) = c ∷ take n s

-- strings.TrimSuffix of one newline.
abbrev pub trim_newline : Str → Str
trim_newline [] = []
trim_newline (c ∷ []) = if c == 10 then [] else c ∷ []
trim_newline (c ∷ d ∷ s) = c ∷ trim_newline (d ∷ s)

-- `perm & 0o022 != 0`: the write bits of the group and of the others.
unfoldable pub writable_by_others : ℕ → Bool
writable_by_others perm = not ((perm / 16) % 2 == 0) || not ((perm / 2) % 2 == 0)

unfoldable pub is_trusted_owner : Process → Option ℕ → Bool
is_trusted_owner process none = false
is_trusted_owner process (some uid) = uid == process.uid || uid == 0

-- The value of the file's text: no more is read than shows that it is too long.
unfoldable pub value_of : ℕ → Str → Str
value_of max_bytes raw = trim_newline (take (max_bytes + 2) raw)

-- `readSubjectFile`
unfoldable pub read_subject_file : Process → Option File → ℕ → Option Str
unfolding value_of writable_by_others is_trusted_owner
read_subject_file process opened max_bytes = do
  file ← opened
  guard file.is_regular
  guard (not (writable_by_others file.perm))
  guard (
      not (
        process.owners_reported
        && not (is_trusted_owner process file.owner)
        && not file.on_read_only_mount))
  raw ← file.contents
  guard (not (is_empty (value_of max_bytes raw) || ltb max_bytes (length (value_of max_bytes raw))))
  some (value_of max_bytes raw)

abbrev pub bootstrap_prefix : Str
bootstrap_prefix = codes "fcwlb_"

abbrev pub bootstrap_value_bytes : ℕ
bootstrap_value_bytes = 6 + 43

abbrev pub max_subject_bytes : ℕ
max_subject_bytes = 4 * 1024

abbrev pub token_type_workload_bootstrap : Str
token_type_workload_bootstrap = codes "urn:dev-health:params:oauth:token-type:workload-bootstrap"

-- The text after the bootstrap prefix.
abbrev after_prefix : Str → Option Str
after_prefix (a ∷ b ∷ c ∷ d ∷ e ∷ f ∷ s) =
    if eq_str (a ∷ b ∷ c ∷ d ∷ e ∷ f ∷ []) bootstrap_prefix then some s else none
after_prefix _ = none

-- `bootstrapPattern` and `canonicalBootstrap`
unfoldable pub canonical_bootstrap : Platform → Str → Bool
canonical_bootstrap p value = is_some do
  rest ← after_prefix value
  guard (url_chars 43 43 rest)
  raw ← p.decode_strict rest
  guard (length raw == 32)

pub data SubjectKind : Type 0 where
  not_set kubernetes bootstrap : SubjectKind

-- `Subject.read`, on what opening the subject's file gives.
unfoldable pub read_subject : Platform → Process → SubjectKind → Option File → Option (Str × Str)
unfolding read_subject_file canonical_bootstrap
read_subject p process not_set opened = none
read_subject p process kubernetes opened = do
  value ← read_subject_file process opened max_subject_bytes
  guard (compact_jws p value)
  some (value, token_type_jwt)
read_subject p process bootstrap opened = do
  value ← read_subject_file process opened bootstrap_value_bytes
  guard (canonical_bootstrap p value)
  some (value, token_type_workload_bootstrap)
