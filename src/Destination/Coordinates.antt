-- ===== src/Destination/Coordinates.antt =====
-- backend/app/services/destination_plan_integrity.py: which registry coordinate an artifact of a
-- plan writes, which artifacts share one, and what a repository of SOURCE may be.
use harbor_transfer_portal.Base.{
  Bool, List, Option, [], all, any, if◌then◌else◌, length, ltb, none, not, some, ℕ, ◌&&◌, ◌++◌,
  ◌==◌, ◌||◌, ◌∷◌,
}
use harbor_transfer_portal.Bundle.Text.{
  Text, codes, contains, has, is_empty, join, same_text, split,
}
use harbor_transfer_portal.Destination.Model.{ArtifactPlan}
use harbor_transfer_portal.Destination.Patterns.{is_component}

-- The repository and the reference in the registry.
abbrev pub Coordinate : Type 0
Coordinate = Text × Text

abbrev pub same_coordinate : Coordinate → Coordinate → Bool
same_coordinate a b = same_text (a.0) (b.0) && same_text (a.1) (b.1)

-- f"{repository}/{name}"
abbrev pub below : Text → Text → Text
below repository name = repository ++ (47 ∷ name)

abbrev image_coordinate : Text → Option Text → Option Coordinate
image_coordinate repository none = none
image_coordinate repository (some reference) = some (repository, reference)

abbrev chart_coordinate : Text → Option Text → Option Text → Option Coordinate
chart_coordinate repository (some name) (some version) = some (below repository name, version)
chart_coordinate repository _ _ = none

abbrev coordinate_in : ArtifactPlan → Option Text → Option Coordinate
coordinate_in item none = none
coordinate_in item (some repository) =
    if same_text item.artifact_type (codes "container-image")
    then image_coordinate repository item.reference
    else if same_text item.artifact_type (codes "helm-chart")
    then chart_coordinate repository item.name item.version
    else none

-- _registry_coordinate
unfoldable pub registry_coordinate : ArtifactPlan → Option Coordinate
registry_coordinate item = coordinate_in item item.target_repository

-- The dictionary of colliding_artifact_indices, in the order of its insertions.
abbrev pub Destinations : Type 0
Destinations = List (Coordinate × List ℕ)

-- destinations.setdefault(coordinate, []).append(index)
unfoldable pub add_index : Coordinate → ℕ → Destinations → Destinations
add_index c i [] = (c, i ∷ []) ∷ []
add_index c i (d ∷ ds) =
    let rest = add_index c i ds in
    if same_coordinate (d.0) c then (d.0, d.1 ++ (i ∷ [])) ∷ ds else d ∷ rest

abbrev pub add_item : Option Coordinate → ℕ → Destinations → Destinations
add_item none i ds = ds
add_item (some c) i ds = add_index c i ds

-- The loop over the artifacts.
unfoldable pub gather : Destinations → List ArtifactPlan → Destinations
gather ds [] = ds
gather ds (item ∷ items) = gather (add_item (registry_coordinate item) item.index ds) items

-- len(indices) > 1
unfoldable pub has_several : List ℕ → Bool
has_several is = ltb 1 (length is)

-- The indices of the coordinates that have several.
unfoldable pub repeated : Destinations → List ℕ
repeated [] = []
repeated (d ∷ ds) = let rest = repeated ds in if has_several (d.1) then d.1 ++ rest else rest

-- colliding_artifact_indices
unfoldable pub colliding_artifact_indices : List ArtifactPlan → List ℕ
colliding_artifact_indices artifacts = repeated (gather [] artifacts)

abbrev pub mem : ℕ → List ℕ → Bool
mem i is = any (λ j. j == i) is

abbrev pub is_bad_repository : Text → Bool
is_bad_repository repository =
    is_empty repository || has 92 repository || contains (codes "://") repository

abbrev pub split_project : List Text → Text × Text
split_project [] = ([], [])
split_project (project ∷ rest) = (project, join 47 rest)

-- repository.partition("/")[0]
abbrev pub project_part : Text → Text
project_part repository = (split_project (split 47 repository)).0

-- validated_source_repository, which raises ValueError
unfoldable pub validated_source_repository : Text → Option (Text × Text)
validated_source_repository repository =
    if is_bad_repository repository || not (all is_component (split 47 repository))
    then none
    else some (split_project (split 47 repository))
