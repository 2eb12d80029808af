-- ===== src/Retention/Deliveries.antt =====
-- The removal of old export deliveries.
use harbor_transfer_portal.Base.{
  Bool, List, Option, String, [], false, if◌then◌else◌, leb, none, not, some, suc, true, ℕ, ◌&&◌,
  ◌+◌, ◌||◌, ◌∷◌,
}
use harbor_transfer_portal.Bundle.Text.{codes, has, starts_with}
use harbor_transfer_portal.Domain.Status.{OperationStatus, completed, is_export}
use harbor_transfer_portal.Retention.Cleanup.{
  Directory, StoredItem, StoredOperation, file, find_item, link, operation_timestamp, tree, unlink,
}
use Prim.Native.String.{◌++◌ as append}

-- The guards of _remove_export_delivery; an id that starts with "DELIVERY-" is neither "." nor "..".
unfoldable pub valid_delivery_id : String → Bool
valid_delivery_id delivery_id =
    starts_with (codes delivery_id) (codes "DELIVERY-")
    && not (has 47 (codes delivery_id))
    && not (has 92 (codes delivery_id))

-- The files of a delivery.
abbrev pub delivery_files : String → List String
delivery_files delivery_id =
    append delivery_id ".htp.tar.gz"
    ∷ append delivery_id ".htp.tar.gz.sha256"
    ∷ append delivery_id ".htp-handoff.json"
    ∷ []

abbrev pub remove_found : String → Option StoredItem → Directory → ℕ × Bool × Directory
remove_found name none dir = (0, false, dir)
remove_found name (some link) dir = (0, true, unlink name dir)
remove_found name (some (file size)) dir = (size, true, unlink name dir)
remove_found name (some (tree size)) dir = (0, false, dir)

-- The body of the loop over the names
unfoldable pub remove_file : String → Directory → ℕ × Bool × Directory
remove_file name dir = remove_found name (find_item name dir) dir

-- The loop over the names
unfoldable pub remove_files : List String → Directory → ℕ × Bool × Directory
remove_files [] dir = (0, false, dir)
remove_files (name ∷ names) dir =
    let (bytes, removed, left) = remove_file name dir in
    let (more, others, last) = remove_files names left in (bytes + more, removed || others, last)

-- _remove_export_delivery
unfoldable pub remove_export_delivery : String → Directory → ℕ × Bool × Directory
remove_export_delivery delivery_id dir =
    if valid_delivery_id delivery_id
    then remove_files (delivery_files delivery_id) dir
    else (0, false, dir)

abbrev is_completed : OperationStatus → Bool
is_completed completed = true
is_completed _ = false

-- The delivery of an export that the loop goes on with.
unfoldable pub expired_delivery : ℕ → StoredOperation → Option String
expired_delivery export_cutoff o =
    if is_export o.type && is_completed o.status && leb (operation_timestamp o) export_cutoff
    then o.delivery_id
    else none

abbrev pub remove_expired : Option String → Directory → ℕ × Bool × Directory
remove_expired none dir = (0, false, dir)
remove_expired (some delivery_id) dir = remove_export_delivery delivery_id dir

-- The loop over the operations: the bytes and deliveries removed, and what is left.
unfoldable pub clean_deliveries : ℕ → List StoredOperation → Directory → ℕ × ℕ × Directory
clean_deliveries export_cutoff [] outgoing = (0, 0, outgoing)
clean_deliveries export_cutoff (o ∷ os) outgoing =
    let (bytes, removed, left) = remove_expired (expired_delivery export_cutoff o) outgoing in
    let (more, items, last) = clean_deliveries export_cutoff os left in
    (bytes + more, (if removed then suc items else items), last)
