-- ===== src/Workload/Subject/Protected.antt =====
-- What a subject token that is presented comes from (workloadtoken/exchange.go, Subject.read).
use dev_health_go.Base.{
  ℕ, suc, zero, ◌+◌, ◌/◌, ◌%◌, ◌≤◌, ◌<◌, ◌≡◌, ◌≢◌, refl, ap, subst, ◌⊎◌, inl, inr, Str, is_empty,
  length, [], ◌∷◌, ◌++◌, true, false, Option, none, some, arith, Bool-cases, ◌==◌, Option-cases,
}
use dev_health_go.Platform.{Platform}
use dev_health_go.Workload.Token.{compact_jws}
use dev_health_go.Workload.Exchange.{token_type_jwt}
use dev_health_go.Workload.Subject.{
  File, Process, take, trim_newline, writable_by_others, is_trusted_owner, value_of,
  read_subject_file, max_subject_bytes, bootstrap_value_bytes, token_type_workload_bootstrap,
  canonical_bootstrap, SubjectKind, not_set, kubernetes, bootstrap, read_subject,
}

-- Fewer bytes than the limit are the whole text.
take-short : (n : ℕ) (s : Str) → length (take n s) < n → take n s ≡ s
take-short zero s h = absurd (omega arith)
take-short (suc n) [] h = refl
take-short (suc n) (c ∷ s) h = ap (λ x. c ∷ x) (take-short n s (omega arith))

-- The text is the value, or the value and one newline.
abbrev pub IsTextOf : Str → Str → Type 0
IsTextOf value raw = (raw ≡ value) ⊎ (raw ≡ value ++ (10 ∷ []))

trim_newline-IsTextOf :
    (s : Str) → IsTextOf (trim_newline s) s × (length s ≤ length (trim_newline s) + 1)
trim_newline-IsTextOf [] = (inl refl, omega arith)
trim_newline-IsTextOf (c ∷ []) = elim (Bool-cases (c == 10)) [
  | inl e ↦ rw e (inr (ground arith), omega arith)
  | inr e ↦ rw e (inl refl, omega arith)
]
trim_newline-IsTextOf (c ∷ d ∷ s) =
    let (t, l) = trim_newline-IsTextOf (d ∷ s) in (longer t, omega (arith, l))
  where
    longer :
        IsTextOf (trim_newline (d ∷ s)) (d ∷ s) → IsTextOf (c ∷ trim_newline (d ∷ s)) (c ∷ d ∷ s)
    longer (inl e) = inl (ap (λ x. c ∷ x) e)
    longer (inr e) = inr (ap (λ x. c ∷ x) e)

-- A value that is short enough is the whole text, or all of it but one newline.
value_of-IsTextOf :
    (most : ℕ) (raw : Str) → length (value_of most raw) ≤ most → IsTextOf (value_of most raw) raw
unfolding value_of
value_of-IsTextOf most raw h =
    let (t, l) = trim_newline-IsTextOf (take (most + 2) raw) in
    subst (IsTextOf (trim_newline (take (most + 2) raw)))
      (take-short (most + 2) raw (omega (arith, l))) t

-- A regular file whose text no other user of the system can have written: the write bits of its group and
-- of the others are not set, and, where owners are reported and the mount can be written, this process or
-- root owns it.
pub record IsProtected (process : Process) (file : File) : Type 0 where
  pub regular : file.is_regular ≡ true
  pub not_by_group : (file.perm / 16) % 2 ≡ 0
  pub not_by_others : (file.perm / 2) % 2 ≡ 0
  pub owned :
      process.owners_reported ≡ true
      → file.on_read_only_mount ≡ false
      → (file.owner ≡ some process.uid) ⊎ (file.owner ≡ some 0)

-- The value is the text of the protected file, at most `most` bytes of it and one newline.
pub record IsReadFrom (process : Process) (opened : Option File) (most : ℕ) (value : Str)
    : Type 0 where
  pub file : File
  pub is_open : opened ≡ some file
  pub protected : IsProtected process file
  pub raw : Str
  pub read : file.contents ≡ some raw
  pub text : IsTextOf value raw
  pub given : value ≢ []
  pub short : length value ≤ most

trusted :
    (process : Process) (owner : Option ℕ)
    → is_trusted_owner process owner ≡ true
    → (owner ≡ some process.uid) ⊎ (owner ≡ some 0)
unfolding is_trusted_owner
trusted process none h = absurd (ground arith)
trusted process (some uid) h = elim (Bool-cases (uid == process.uid)) [
  | inl e ↦ inl (ground arith)
  | inr e ↦ inr (ground arith)
]

unshared :
    (perm : ℕ) → writable_by_others perm ≡ false → ((perm / 16) % 2 ≡ 0) × ((perm / 2) % 2 ≡ 0)
unfolding writable_by_others
unshared perm h = (ground arith, ground arith)

module _ (process : Process) (most : ℕ) (value : Str) where
  read_subject_file-IsReadFrom :
      (opened : Option File)
      → read_subject_file process opened most ≡ some value
      → IsReadFrom process opened most value
  unfolding read_subject_file
  read_subject_file-IsReadFrom none h = absurd (ground arith)
  read_subject_file-IsReadFrom (some file) h = elim (Option-cases file.contents) [
    | inl e ↦ absurd (ground arith)
    | inr (raw, e) ↦
        let same : value_of most raw ≡ value = ground arith in
        let small : length (value_of most raw) ≤ most = ground arith in
        let shared : writable_by_others file.perm ≡ false = ground arith in
        let filled : is_empty value ≡ false = ground (arith, same) in
        record {
          file = file;
          is_open = refl;
          protected = record {
            regular = ground arith;
            not_by_group = (unshared file.perm shared).0;
            not_by_others = (unshared file.perm shared).1;
            owned = λ reported writable. trusted process file.owner (ground arith);
          };
          raw = raw;
          read = e;
          text = subst (λ v. IsTextOf v raw) same (value_of-IsTextOf most raw small);
          given = λ none_given. absurd (ground arith);
          short = subst (λ v. length v ≤ most) same small;
        }
  ]

-- What a subject is that is presented as of the type.
abbrev pub IsSubjectOf : Platform → Process → Option File → Str → Str → Type 0
IsSubjectOf p process opened value type =
    ((type ≡ token_type_jwt)
      × (compact_jws p value ≡ true)
      × IsReadFrom process opened max_subject_bytes value)
    ⊎ ((type ≡ token_type_workload_bootstrap)
        × (canonical_bootstrap p value ≡ true)
        × IsReadFrom process opened bootstrap_value_bytes value)

module _ (p : Platform) (process : Process) (value type : Str) where
  -- A subject token that is presented is the whole text of an open file, less one newline at its end if there
  -- is one, and not empty. The file is a regular one that neither its group nor others can write, and its
  -- owner is this process or root where owners are reported and the mount can be written. The token is a
  -- compact JWS of at most 4096 bytes, presented as a JWT, or a canonical bootstrap value of at most
  -- 49 bytes, presented as such.
  pub read_subject-IsProtected :
      (kind : SubjectKind) (opened : Option File)
      → read_subject p process kind opened ≡ some (value, type)
      → IsSubjectOf p process opened value type
  unfolding read_subject
  read_subject-IsProtected not_set opened h = absurd (ground arith)
  read_subject-IsProtected kubernetes opened h = inl (
    ground arith,
    ground arith,
    read_subject_file-IsReadFrom process max_subject_bytes value opened (ground arith),
  )
  read_subject-IsProtected bootstrap opened h = inr (
    ground arith,
    ground arith,
    read_subject_file-IsReadFrom process bootstrap_value_bytes value opened (ground arith),
  )
