-- ===== src/Workload/Subject/Tests.antt =====
-- A projected token in a file that root owns.
use dev_health_go.Base.{◌≡◌, refl, codes, eq_str, split, true, false, none, some}
use dev_health_go.Platform.{Platform}
use dev_health_go.Workload.Token.{compact_jws}
use dev_health_go.Workload.Exchange.{token_type_jwt}
use dev_health_go.Workload.Subject.{
  File, Process, kubernetes, read_subject, read_subject_file, value_of, writable_by_others,
  is_trusted_owner,
}
use dev_health_go.Workload.Subject.Protected.{IsSubjectOf, read_subject-IsProtected}

abbrev platform : Platform
platform = record {
  equal_fold = eq_str;
  trim_space = λ s. s;
  decode_strict = λ s. some s;
  decode_loose = λ s. some s;
  read = λ s. none;
  media_type = λ s. some s;
  verify_signature = λ key message raw. true;
}

-- Its mode is 0444.
abbrev file : File
file = record {
  is_regular = true;
  perm = 292;
  owner = some 0;
  on_read_only_mount = false;
  contents = some (codes "a.b.c");
}

abbrev process : Process
process = record { owners_reported = true; uid = 1000 }

subject_read :
    read_subject platform process kubernetes (some file) ≡ some (codes "a.b.c", token_type_jwt)
unfolding read_subject read_subject_file value_of writable_by_others is_trusted_owner compact_jws
    split
subject_read = refl

read_subject-IsProtected_example :
    IsSubjectOf platform process (some file) (codes "a.b.c") token_type_jwt
read_subject-IsProtected_example =
    read_subject-IsProtected platform process (codes "a.b.c") token_type_jwt kubernetes (some file)
      subject_read
