-- ===== src/Bundle/Types.antt =====
-- internal/executionbundle/types.go: what a bundle and its manifest hold. A Go `int` or `int64` that
-- the code only compares is a natural number.
use vpsmith.Base.{ℕ, Bool, Option, List, true, false}
use vpsmith.Base.Text.{Text}

-- `type Kind string`, with the values that the package names.
pub data Kind : Type 0 where
  installation migration validation : Kind
  other : Text → Kind

pub record SourceIdentity : Type 0 where
  pub kind : Text
  pub id : Text
  pub version : Text
  pub git_commit : Text
  pub package_sha256 : Text

pub record ImageIdentity : Type 0 where
  pub name : Text
  pub ref : Text
  pub digest : Text

pub record RunnerIdentity : Type 0 where
  pub version : Text
  pub path : Text
  pub sha256 : Text

pub record SecretReference : Type 0 where
  pub secret_id : Text
  pub container : Text
  pub delivery : Text
  pub target : Text

pub record Precondition : Type 0 where
  pub kind : Text
  pub subject : Text
  pub expected : Text

pub record ValidationSpec : Type 0 where
  pub id : Text
  pub read_only : Bool

pub record Step : Type 0 where
  pub id : Text
  pub kind : Text
  pub artifact : Text
  pub action : Text
  pub args : List Text
  pub mutating : Bool

pub record Artifact : Type 0 where
  pub path : Text
  pub target_path : Text
  pub sha256 : Text
  pub mode : ℕ

pub record Action : Type 0 where
  pub id : Text
  pub path : Text
  pub sha256 : Text

pub record File : Type 0 where
  pub path : Text
  pub target_path : Text
  pub mode : ℕ
  pub bytes : Text

pub record Manifest : Type 0 where
  pub format_version : ℕ
  pub runner : RunnerIdentity
  pub bundle_id : Text
  pub kind : Kind
  pub target_id : Text
  pub subject_kind : Text
  pub subject_id : Text
  pub subject_identity : Text
  pub package_id : Text
  pub package_sha256 : Text
  pub version : Text
  pub sources : List SourceIdentity
  pub images : List ImageIdentity
  pub artifacts : List Artifact
  pub actions : List Action
  pub action_writable_paths : List Text
  pub secrets : List SecretReference
  pub preconditions : List Precondition
  pub expected_post : Text
  pub validations : List ValidationSpec
  pub steps : List Step
  pub backup_required : Bool

-- `ExpectedPost any` stands for its JSON text, `none` if it has none.
pub record Input : Type 0 where
  pub kind : Kind
  pub target_id : Text
  pub subject_kind : Text
  pub subject_id : Text
  pub subject_identity : Text
  pub package_id : Text
  pub package_sha256 : Text
  pub version : Text
  pub sources : List SourceIdentity
  pub images : List ImageIdentity
  pub files : List File
  pub actions : List File
  pub action_ids : List Text
  pub action_writable_paths : List Text
  pub secrets : List SecretReference
  pub preconditions : List Precondition
  pub expected_post : Option Text
  pub validations : List ValidationSpec
  pub steps : List Step
  pub backup_required : Bool

pub record Bundle : Type 0 where
  pub id : Text
  pub kind : Kind
  pub sha256 : Text
  pub bytes : Text
  pub manifest : Manifest

abbrev pub is_validation : Kind → Bool
is_validation Kind.validation = true
is_validation _ = false

abbrev pub is_known : Kind → Bool
is_known (Kind.other t) = false
is_known _ = true
