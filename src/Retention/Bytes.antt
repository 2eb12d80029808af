-- ===== src/Retention/Bytes.antt =====
-- The bytes that a report says reclaimed are the ones that are gone.
use harbor_transfer_portal.Base.{ltb, sym, ◌-◌, ◌||◌, ◌∙◌}
use harbor_transfer_portal.Retention.Cleanup.{storage_keys}
use harbor_transfer_portal.Retention.Report.{
  RetentionSettings, clean_until, cleanup_transfer_storage,
}
use mathlib.Core.Path.{subst}
use harbor_transfer_portal.Base.{
  Bool-cases, List, Option, String, [], ap, arith, eq_iff, false, inl, inr, none, refl, some,
  str_eq, ℕ, ◌+◌, ◌∷◌, ◌≡◌,
}
use harbor_transfer_portal.Retention.Cleanup.{
  Directory, StoredItem, StoredOperation, clean_staging, file, find_item, is_removable, link,
  remove_direct_child_tree, remove_item, tree, unlink,
}
use harbor_transfer_portal.Retention.Deliveries.{
  clean_deliveries, delivery_files, expired_delivery, remove_expired, remove_export_delivery,
  remove_file, remove_files, remove_found, valid_delivery_id,
}
use harbor_transfer_portal.Retention.Report.{Storage, StorageCleanupReport, cleaned_root, root_left}
use harbor_transfer_portal.Retention.Workspaces.{
  DigitReading, clean_workspaces, extraction_operation_id, is_spared, is_value_error,
  workspace_names,
}

abbrev pub item_bytes : Option StoredItem → ℕ
item_bytes none = 0
item_bytes (some link) = 0
item_bytes (some (file size)) = size
item_bytes (some (tree size)) = size

abbrev pub total_bytes : Directory → ℕ
total_bytes [] = 0
total_bytes ((name, item) ∷ rest) = item_bytes (some item) + total_bytes rest

-- No two children of the directory have one name.
unfoldable pub HasDistinctNames : Directory → Type 0
HasDistinctNames [] = Unit
HasDistinctNames ((name, item) ∷ rest) = (find_item name rest ≡ none) × HasDistinctNames rest

-- A name that is not the first is not there.
find_item-behind :
    (name n : String) (item : StoredItem) (rest : Directory)
    → find_item name ((n, item) ∷ rest) ≡ none
    → (str_eq n name ≡ false) × (find_item name rest ≡ none)
find_item-behind name n item rest h = elim (Bool-cases (str_eq n name)) [
  | inl e ↦ let x = rw e at h in cc
  | inr e ↦ (e, rw e at h)
]

unlink-absent :
    (name : String) (dir : Directory) → find_item name dir ≡ none → unlink name dir ≡ dir
unlink-absent name [] h = refl
unlink-absent name ((n, item) ∷ rest) h =
    let (p, q) = find_item-behind name n item rest h in
    rw p (ap (λ r. (n, item) ∷ r) (unlink-absent name rest q))

unlink-none :
    (name gone : String) (dir : Directory)
    → find_item name dir ≡ none
    → find_item name (unlink gone dir) ≡ none
unlink-none name gone [] h = refl
unlink-none name gone ((n, item) ∷ rest) h =
    let (p, q) = find_item-behind name n item rest h in
    elim (Bool-cases (str_eq n gone)) [
      | inl e ↦ rw e (unlink-none name gone rest q)
      | inr e ↦ rw e (rw p (unlink-none name gone rest q))
    ]

unlink-HasDistinctNames :
    (gone : String) (dir : Directory) → HasDistinctNames dir → HasDistinctNames (unlink gone dir)
unfolding HasDistinctNames
unlink-HasDistinctNames gone [] d = tt
unlink-HasDistinctNames gone ((n, item) ∷ rest) d = elim (Bool-cases (str_eq n gone)) [
  | inl e ↦ rw e (unlink-HasDistinctNames gone rest (d.1))
  | inr e ↦ rw e (unlink-none n gone rest (d.0), unlink-HasDistinctNames gone rest (d.1))
]

total_bytes-unlink :
    (name : String) (dir : Directory)
    → HasDistinctNames dir
    → item_bytes (find_item name dir) + total_bytes (unlink name dir) ≡ total_bytes dir
unfolding HasDistinctNames
total_bytes-unlink name [] d = refl
total_bytes-unlink name ((n, item) ∷ rest) d = elim (Bool-cases (str_eq n name)) [
  | inl e ↦
      let absent : find_item name rest ≡ none =
        subst (λ m. find_item m rest ≡ none) ((eq_iff n name).0 e) (d.0) in
      rw e (ap (λ r. item_bytes (some item) + total_bytes r) (unlink-absent name rest absent))
  | inr e ↦ let ih = total_bytes-unlink name rest (d.1) in rw e (omega (arith, ih))
]

-- A removal reports the bytes that are gone, and leaves the names distinct.
record IsBalanced (dir : Directory) (bytes : ℕ) (left : Directory) : Type 0 where
  gone : bytes + total_bytes left ≡ total_bytes dir
  distinct : HasDistinctNames left

unlinked :
    (name : String) (dir : Directory) (item : Option StoredItem)
    → find_item name dir ≡ item
    → HasDistinctNames dir
    → IsBalanced dir (item_bytes item) (unlink name dir)
unlinked name dir item h d = record {
  gone =
      subst (λ o. item_bytes o + total_bytes (unlink name dir) ≡ total_bytes dir) h
        (total_bytes-unlink name dir d);
  distinct = unlink-HasDistinctNames name dir d;
}

unchanged : (dir : Directory) → HasDistinctNames dir → IsBalanced dir 0 dir
unchanged dir d = record { gone = omega arith; distinct = d }

-- One removal after another.
in_turn :
    (dir left last : Directory) (bytes more : ℕ)
    → IsBalanced dir bytes left
    → IsBalanced left more last
    → IsBalanced dir (bytes + more) last
in_turn dir left last bytes more p q =
    let a = p.gone in let b = q.gone in record { gone = omega (arith, a, b); distinct = q.distinct }

remove_item-IsBalanced :
    (name : String) (dir : Directory) (item : Option StoredItem)
    → find_item name dir ≡ item
    → HasDistinctNames dir
    → IsBalanced dir (remove_item name item dir).0 (remove_item name item dir).2
remove_item-IsBalanced name dir none h d = unchanged dir d
remove_item-IsBalanced name dir (some (file size)) h d = unchanged dir d
remove_item-IsBalanced name dir (some link) h d = unlinked name dir (some link) h d
remove_item-IsBalanced name dir (some (tree size)) h d = unlinked name dir (some (tree size)) h d

remove_found-IsBalanced :
    (name : String) (dir : Directory) (item : Option StoredItem)
    → find_item name dir ≡ item
    → HasDistinctNames dir
    → IsBalanced dir (remove_found name item dir).0 (remove_found name item dir).2
remove_found-IsBalanced name dir none h d = unchanged dir d
remove_found-IsBalanced name dir (some (tree size)) h d = unchanged dir d
remove_found-IsBalanced name dir (some link) h d = unlinked name dir (some link) h d
remove_found-IsBalanced name dir (some (file size)) h d = unlinked name dir (some (file size)) h d

remove_files-IsBalanced :
    (names : List String) (dir : Directory)
    → HasDistinctNames dir
    → IsBalanced dir (remove_files names dir).0 (remove_files names dir).2
unfolding remove_files remove_file
remove_files-IsBalanced [] dir d = unchanged dir d
remove_files-IsBalanced (name ∷ names) dir d =
    let p = remove_found-IsBalanced name dir (find_item name dir) refl d in
    in_turn dir _ _ _ _ p
      (remove_files-IsBalanced names (remove_found name (find_item name dir) dir).2 p.distinct)

remove_expired-IsBalanced :
    (o : Option String) (dir : Directory)
    → HasDistinctNames dir
    → IsBalanced dir (remove_expired o dir).0 (remove_expired o dir).2
unfolding remove_export_delivery
remove_expired-IsBalanced none dir d = unchanged dir d
remove_expired-IsBalanced (some delivery_id) dir d =
    elim (Bool-cases (valid_delivery_id delivery_id)) [
      | inl e ↦ rw e (remove_files-IsBalanced (delivery_files delivery_id) dir d)
      | inr e ↦ rw e (unchanged dir d)
    ]

clean_deliveries-IsBalanced :
    (cutoff : ℕ) (os : List StoredOperation) (dir : Directory)
    → HasDistinctNames dir
    → IsBalanced dir (clean_deliveries cutoff os dir).0 (clean_deliveries cutoff os dir).2
unfolding clean_deliveries
clean_deliveries-IsBalanced cutoff [] dir d = unchanged dir d
clean_deliveries-IsBalanced cutoff (o ∷ os) dir d =
    let p = remove_expired-IsBalanced (expired_delivery cutoff o) dir d in
    in_turn dir _ _ _ _ p (
      clean_deliveries-IsBalanced cutoff os (remove_expired (expired_delivery cutoff o) dir).2
        p.distinct)

clean_staging-IsBalanced :
    (cutoff : ℕ) (os : List StoredOperation) (keys : List String) (dir : Directory)
    → HasDistinctNames dir
    → IsBalanced dir (clean_staging cutoff os keys dir).0 (clean_staging cutoff os keys dir).2
unfolding clean_staging remove_direct_child_tree
clean_staging-IsBalanced cutoff os [] dir d = unchanged dir d
clean_staging-IsBalanced cutoff os (key ∷ keys) dir d =
    elim (Bool-cases (is_removable cutoff os key)) [
      | inl e ↦
          let p = remove_item-IsBalanced key dir (find_item key dir) refl d in
          rw e (
            in_turn dir _ _ _ _ p (
              clean_staging-IsBalanced cutoff os keys (remove_item key (find_item key dir) dir).2
                p.distinct))
      | inr e ↦ rw e (clean_staging-IsBalanced cutoff os keys dir d)
    ]

clean_workspaces-IsBalanced :
    (reading : DigitReading) (os : List StoredOperation) (names : List String) (dir : Directory)
    → HasDistinctNames dir
    → IsBalanced dir
        (clean_workspaces reading os names dir).bytes
        (clean_workspaces reading os names dir).left
unfolding clean_workspaces remove_direct_child_tree
clean_workspaces-IsBalanced reading os [] dir d = unchanged dir d
clean_workspaces-IsBalanced reading os (name ∷ names) dir d =
    let x = extraction_operation_id reading name in
    elim (Bool-cases (is_value_error x)) [
      | inl v ↦ rw v (unchanged dir d)
      | inr v ↦ rw v (elim (Bool-cases (is_spared os x)) [
        | inl s ↦ rw s (clean_workspaces-IsBalanced reading os names dir d)
        | inr s ↦
            let p = remove_item-IsBalanced name dir (find_item name dir) refl d in
            rw s (
              in_turn dir _ _ _ _ p (
                clean_workspaces-IsBalanced reading os names
                  (remove_item name (find_item name dir) dir).2 p.distinct))
      ])
    ]

abbrev root_bytes : Option Directory → ℕ
root_bytes none = 0
root_bytes (some dir) = total_bytes dir

-- The bytes under the three roots.
unfoldable pub stored_bytes : Storage → ℕ
stored_bytes s = total_bytes s.outgoing + total_bytes s.staging + root_bytes s.workspaces

unfoldable pub RootIsDistinct : Option Directory → Type 0
RootIsDistinct none = Unit
RootIsDistinct (some dir) = HasDistinctNames dir

cleaned_root-bytes :
    (reading : DigitReading) (os : List StoredOperation) (root : Option Directory)
    → RootIsDistinct root
    → (cleaned_root reading os root).bytes
        + root_bytes (root_left root (cleaned_root reading os root))
      ≡ root_bytes root
unfolding RootIsDistinct
cleaned_root-bytes reading os none d = refl
cleaned_root-bytes reading os (some dir) d =
    (clean_workspaces-IsBalanced reading os (workspace_names dir) dir d).gone

sum_balanced :
    (a b c x y z u v w : ℕ)
    → a + x ≡ u
    → b + y ≡ v
    → c + z ≡ w
    → a + b + c + (x + y + z) ≡ u + v + w
sum_balanced a b c x y z u v w p q r = omega (arith, p, q, r)

clean_until-bytes :
    (reading : DigitReading) (export_cutoff import_cutoff : ℕ) (os : List StoredOperation)
    (s : Storage) (report : StorageCleanupReport)
    → HasDistinctNames s.outgoing
    → HasDistinctNames s.staging
    → RootIsDistinct s.workspaces
    → (clean_until reading export_cutoff import_cutoff os s).report ≡ some report
    → report.bytes_reclaimed
        + stored_bytes (clean_until reading export_cutoff import_cutoff os s).storage
      ≡ stored_bytes s
unfolding clean_until stored_bytes
clean_until-bytes reading export_cutoff import_cutoff os s report a b c h =
    elim (Bool-cases (cleaned_root reading os s.workspaces).raised) [
      | inl e ↦ let x = rw e at h in cc
      | inr e ↦
          let x = rw e at h in
          let bytes : _ ≡ report.bytes_reclaimed =
            ap (λ o. elim o [ none ↦ 0 | some r ↦ r.bytes_reclaimed ]) x in
          ap (λ n. n + stored_bytes (clean_until reading export_cutoff import_cutoff os s).storage)
            (sym bytes)
          ∙ sum_balanced _ _ _ _ _ _ _ _ _
              (clean_deliveries-IsBalanced export_cutoff os s.outgoing a).gone
              (clean_staging-IsBalanced import_cutoff os (storage_keys [] os) s.staging b).gone
              (cleaned_root-bytes reading os s.workspaces c)
    ]

-- If no directory has a name twice, the bytes that a report says reclaimed are exactly the bytes by
-- which the three roots have shrunk.
pub cleanup_transfer_storage-bytes :
    (reading : DigitReading) (settings : RetentionSettings) (now : ℕ) (os : List StoredOperation)
    (s : Storage) (report : StorageCleanupReport)
    → HasDistinctNames s.outgoing
    → HasDistinctNames s.staging
    → RootIsDistinct s.workspaces
    → (cleanup_transfer_storage reading settings now os s).report ≡ some report
    → report.bytes_reclaimed
        + stored_bytes (cleanup_transfer_storage reading settings now os s).storage
      ≡ stored_bytes s
unfolding cleanup_transfer_storage
cleanup_transfer_storage-bytes reading settings now os s report a b c h =
    elim (Bool-cases (
      ltb now settings.export_bundle_retention_seconds
      || ltb now settings.import_bundle_retention_seconds)) [
        | inl e ↦ let x = rw e at h in cc
        | inr e ↦
            let x = rw e at h in
            rw e (
              clean_until-bytes reading (now - settings.export_bundle_retention_seconds)
                (now - settings.import_bundle_retention_seconds) os s report a b c x)
      ]
