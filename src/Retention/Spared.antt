-- ===== src/Retention/Spared.antt =====
-- What a whole cleanup leaves as it is.
use harbor_transfer_portal.Base.{
  Bool, Bool-cases, List, Option, String, [], any, eq_iff, false, inl, inr, ltb, none, or_neither,
  refl, some, str_eq, true, ℕ, ◌-◌, ◌||◌, ◌∙◌, ◌∷◌, ◌≡◌,
}
use harbor_transfer_portal.Retention.Cleanup.{
  Directory, StoredItem, StoredOperation, file, find_item, link, remove_direct_child_tree,
  remove_item, storage_keys, tree,
}
use harbor_transfer_portal.Retention.Deliveries.{
  clean_deliveries, delivery_files, expired_delivery, remove_expired, remove_export_delivery,
  remove_file, remove_files, remove_found, valid_delivery_id,
}
use harbor_transfer_portal.Retention.Kept.{
  clean_staging-keeps, find_item-unlink, keeps, remove_item-other,
}
use harbor_transfer_portal.Retention.Report.{
  RetentionSettings, Storage, clean_until, cleaned_root, cleanup_transfer_storage,
}
use harbor_transfer_portal.Retention.Workspaces.{
  DigitReading, clean_workspaces, extraction_operation_id, is_active, is_spared, is_value_error,
  operation_id, workspace_names,
}

-- An expired delivery has a file of that name.
abbrev pub has_file : String → Option String → Bool
has_file name none = false
has_file name (some delivery_id) = any (λ n. str_eq n name) (delivery_files delivery_id)

remove_found-other :
    (name gone : String) (item : Option StoredItem) (dir : Directory)
    → str_eq gone name ≡ false
    → find_item name (remove_found gone item dir).2 ≡ find_item name dir
remove_found-other name gone none dir e = refl
remove_found-other name gone (some link) dir e = find_item-unlink name gone dir e
remove_found-other name gone (some (file size)) dir e = find_item-unlink name gone dir e
remove_found-other name gone (some (tree size)) dir e = refl

remove_files-other :
    (name : String) (names : List String) (dir : Directory)
    → any (λ n. str_eq n name) names ≡ false
    → find_item name (remove_files names dir).2 ≡ find_item name dir
unfolding remove_files remove_file
remove_files-other name [] dir h = refl
remove_files-other name (n ∷ names) dir h =
    let (p, q) = or_neither (str_eq n name) (any (λ m. str_eq m name) names) h in
    remove_files-other name names (remove_found n (find_item n dir) dir).2 q
    ∙ remove_found-other name n (find_item n dir) dir p

remove_expired-other :
    (name : String) (o : Option String) (dir : Directory)
    → has_file name o ≡ false
    → find_item name (remove_expired o dir).2 ≡ find_item name dir
unfolding remove_export_delivery
remove_expired-other name none dir h = refl
remove_expired-other name (some delivery_id) dir h =
    elim (Bool-cases (valid_delivery_id delivery_id)) [
      | inl e ↦ rw e (remove_files-other name (delivery_files delivery_id) dir h)
      | inr e ↦ rw e refl
    ]

clean_deliveries-other :
    (name : String) (export_cutoff : ℕ) (operations : List StoredOperation) (outgoing : Directory)
    → any (λ o. has_file name (expired_delivery export_cutoff o)) operations ≡ false
    → find_item name (clean_deliveries export_cutoff operations outgoing).2
      ≡ find_item name outgoing
unfolding clean_deliveries
clean_deliveries-other name export_cutoff [] outgoing h = refl
clean_deliveries-other name export_cutoff (o ∷ os) outgoing h =
    let d = expired_delivery export_cutoff o in
    let (p, q) =
      or_neither (has_file name d) (any (λ a. has_file name (expired_delivery export_cutoff a)) os)
        h in
    clean_deliveries-other name export_cutoff os (remove_expired d outgoing).2 q
    ∙ remove_expired-other name d outgoing p

clean_workspaces-active :
    (reading : DigitReading) (operations : List StoredOperation) (name : String) (i : ℕ)
    (names : List String) (dir : Directory)
    → extraction_operation_id reading name ≡ operation_id i
    → is_active operations i ≡ true
    → find_item name (clean_workspaces reading operations names dir).left ≡ find_item name dir
unfolding clean_workspaces remove_direct_child_tree
clean_workspaces-active reading operations name i [] dir e a = refl
clean_workspaces-active reading operations name i (n ∷ names) dir e a =
    let x = extraction_operation_id reading n in
    elim (Bool-cases (is_value_error x)) [
      | inl v ↦ rw v refl
      | inr v ↦ rw v (elim (Bool-cases (is_spared operations x)) [
        | inl s ↦ rw s (clean_workspaces-active reading operations name i names dir e a)
        | inr s ↦ rw s (
            clean_workspaces-active reading operations name i names
              (remove_item n (find_item n dir) dir).2 e a
            ∙ remove_item-other name n (find_item n dir) dir (elim (Bool-cases (str_eq n name)) [
              | inl hit ↦
                  let n_is_name = (eq_iff n name).0 hit in
                  let spared : is_spared operations x ≡ true = rw n_is_name (rw e a) in cc
              | inr other ↦ other
            ]))
      ])
    ]

-- What a cleanup spares: a file in the outgoing directory that no expired delivery has, the staging
-- of a key that an operation keeps, and the workspace of an import that has not ended.
pub record AreSpared (reading : DigitReading) (export_cutoff import_cutoff : ℕ)
    (operations : List StoredOperation) (before after : Storage) : Type 0 where
  pub outgoing_file :
      (name : String)
      → any (λ o. has_file name (expired_delivery export_cutoff o)) operations ≡ false
      → find_item name after.outgoing ≡ find_item name before.outgoing
  pub staging_key :
      (key : String)
      → any (keeps import_cutoff key) operations ≡ true
      → find_item key after.staging ≡ find_item key before.staging
  pub workspace :
      (name : String) (i : ℕ) (dir : Directory)
      → before.workspaces ≡ some dir
      → extraction_operation_id reading name ≡ operation_id i
      → is_active operations i ≡ true
      → (left : Directory) × (after.workspaces ≡ some left)
        × (find_item name left ≡ find_item name dir)

clean_until-AreSpared :
    (reading : DigitReading) (export_cutoff import_cutoff : ℕ) (operations : List StoredOperation)
    (s : Storage)
    → AreSpared reading export_cutoff import_cutoff operations s
        (clean_until reading export_cutoff import_cutoff operations s).storage
unfolding clean_until
clean_until-AreSpared reading export_cutoff import_cutoff operations s = record {
  outgoing_file = λ name h. clean_deliveries-other name export_cutoff operations s.outgoing h;
  staging_key = λ key h.
      clean_staging-keeps import_cutoff operations (storage_keys [] operations) key s.staging h;
  workspace = λ name i dir there e a. (
    (cleaned_root reading operations (some dir)).left,
    rw there refl,
    clean_workspaces-active reading operations name i (workspace_names dir) dir e a,
  );
}

-- A cleanup, also one that an error ends, spares what is still needed.
pub cleanup_transfer_storage-AreSpared :
    (reading : DigitReading) (settings : RetentionSettings) (now : ℕ)
    (operations : List StoredOperation) (s : Storage)
    → AreSpared reading
        (now - settings.export_bundle_retention_seconds)
        (now - settings.import_bundle_retention_seconds)
        operations
        s
        (cleanup_transfer_storage reading settings now operations s).storage
unfolding cleanup_transfer_storage
cleanup_transfer_storage-AreSpared reading settings now operations s =
    elim (Bool-cases (
      ltb now settings.export_bundle_retention_seconds
      || ltb now settings.import_bundle_retention_seconds)) [
        | inl e ↦ rw e (record {
          outgoing_file = λ name h. refl;
          staging_key = λ key h. refl;
          workspace = λ name i dir there x a. (dir, there, refl);
        })
        | inr e ↦ rw e (
            clean_until-AreSpared reading (now - settings.export_bundle_retention_seconds)
              (now - settings.import_bundle_retention_seconds) operations s)
      ]
