-- ===== src/Domain/Status.antt =====
-- The enumerations of backend/app/domain/bundle.py, with the tests `is` and `in` on them.
use harbor_transfer_portal.Base.{ℕ, ◌≡◌, Bool, ◌==◌, List, any, ◌↔◌, arith}

pub data OperationType : Type 0 where
  export import : OperationType

pub data OperationStatus : Type 0 where
  created validating running packaging verifying : OperationStatus
  uploaded discovered ready importing verifying_target : OperationStatus
  completed failed rejected cancelled : OperationStatus

pub data ArtifactStatus : Type 0 where
  pending running imported skipped conflict failed verified : ArtifactStatus

abbrev pub ordinal : OperationStatus → ℕ
ordinal created = 0
ordinal validating = 1
ordinal running = 2
ordinal packaging = 3
ordinal verifying = 4
ordinal uploaded = 5
ordinal discovered = 6
ordinal ready = 7
ordinal importing = 8
ordinal verifying_target = 9
ordinal completed = 10
ordinal failed = 11
ordinal rejected = 12
ordinal cancelled = 13

-- `a is b`, `a == b`
abbrev pub same_status : OperationStatus → OperationStatus → Bool
same_status a b = ordinal a == ordinal b

-- `a in statuses`
abbrev pub status_in : OperationStatus → List OperationStatus → Bool
status_in a statuses = any (same_status a) statuses

abbrev pub artifact_ordinal : ArtifactStatus → ℕ
artifact_ordinal pending = 0
artifact_ordinal running = 1
artifact_ordinal imported = 2
artifact_ordinal skipped = 3
artifact_ordinal conflict = 4
artifact_ordinal failed = 5
artifact_ordinal verified = 6

abbrev pub same_artifact_status : ArtifactStatus → ArtifactStatus → Bool
same_artifact_status a b = artifact_ordinal a == artifact_ordinal b

abbrev pub artifact_status_in : ArtifactStatus → List ArtifactStatus → Bool
artifact_status_in a statuses = any (same_artifact_status a) statuses

abbrev pub is_export : OperationType → Bool
is_export export = Bool.true
is_export import = Bool.false

pub same_status_iff : (a b : OperationStatus) → (same_status a b ≡ Bool.true) ↔ (a ≡ b)
same_status_iff a b = ground arith
