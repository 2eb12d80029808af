-- ===== src/Destination/Model.antt =====
-- What a destination plan is made of: backend/app/schemas/imports.py, the states of
-- backend/app/domain/imports.py, and the references of the registry tools.
use harbor_transfer_portal.Base.{Bool, List, Option, String, all, false, none, some, true, ℕ, ◌&&◌}
use harbor_transfer_portal.Bundle.Text.{Text, same_text}

pub data ImportPreviewState : Type 0 where
  new same conflict unknown error : ImportPreviewState

-- One artifact of the verified preview.
pub record ImportArtifactPreview : Type 0 where
  pub index : ℕ
  pub artifact_type : Text
  pub repository : Text
  pub name : Option Text
  pub reference : Option Text
  pub version : Option Text
  pub expected_digest : Option Text
  pub payload_size : ℕ

pub record ImportArtifactDestinationOverride : Type 0 where
  pub index : ℕ
  pub target_project : Text

pub record ImportDestinationPlanRequest : Type 0 where
  pub harbor_profile_id : Option Text
  pub mapping_policy_revision : ℕ
  pub container_image_project : Option Text
  pub helm_chart_project : Option Text
  pub project_mappings : List (Text × Text)
  pub artifact_overrides : List ImportArtifactDestinationOverride

-- ImportDestinationArtifactPlanResponse, without its message.
pub record ArtifactPlan : Type 0 where
  pub index : ℕ
  pub artifact_type : Text
  pub source_repository : Text
  pub source_project : Text
  pub name : Option Text
  pub reference : Option Text
  pub version : Option Text
  pub expected_digest : Option Text
  pub payload_size : ℕ
  pub target_project : Option Text
  pub target_repository : Option Text
  pub final_reference : Option Text
  pub project_exists : Bool
  pub write_allowed : Bool
  pub target_digest : Option Text
  pub classification : ImportPreviewState
  pub error_code : Option String

-- ImportDestinationPlanResponse
pub record DestinationPlan : Type 0 where
  pub operation_id : ℕ
  pub source_delivery_id : Text
  pub actor_username : Text
  pub bundle_sha256 : Text
  pub plan_id : Text
  pub plan_hash : Text
  pub mapping_policy_revision : ℕ
  pub created_at : ℕ
  pub valid : Bool
  pub artifacts : List ArtifactPlan

unfoldable pub is_writable_state : ImportPreviewState → Bool
is_writable_state new = true
is_writable_state same = true
is_writable_state conflict = true
is_writable_state unknown = false
is_writable_state error = false

abbrev pub is_conflict : ImportPreviewState → Bool
is_conflict conflict = true
is_conflict _ = false

unfoldable pub is_writable : ArtifactPlan → Bool
is_writable item =
    item.project_exists && item.write_allowed && is_writable_state item.classification

-- The validity of a plan, computed where it is built and again whenever it is validated.
unfoldable pub all_writable : List ArtifactPlan → Bool
all_writable artifacts = all is_writable artifacts

-- An optional text equals another.
abbrev pub same_option : Option Text → Option Text → Bool
same_option none none = true
same_option (some s) (some t) = same_text s t
same_option _ _ = false
