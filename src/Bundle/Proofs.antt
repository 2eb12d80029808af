-- ===== src/Bundle/Proofs.antt =====
-- The checks of a bundle, one by one, and what each of them leaves known.
use harbor_transfer_portal.Bundle.Manifest.{null, boolean, numeral, text, array}
use harbor_transfer_portal.Bundle.Manifest.{is_valid_manifest}
use harbor_transfer_portal.Base.{
  Option-cases, Result, String, ap, bind-ok, err, length, negated_iff, or_right, some, then-ok,
  true, Bool-cases, List, [], inl, inr, ltb, not, ok, refl, refuse_if-ok, sym, ℕ, ◌&&◌, ◌++◌, ◌+◌,
  ◌∙◌, ◌∷◌, ◌≡◌,
}
use harbor_transfer_portal.Bundle.Authentic.{named_files}
use harbor_transfer_portal.Bundle.Inspection.{
  ArchiveInspection, as_unsafe, find_member, inspect_archive, read_small_member, inspect_members,
}
use harbor_transfer_portal.Bundle.Manifest.{
  BundleManifest, Json, JsonFields, Libraries, drop_nulls, model_validate, parse_canonical_manifest,
  parsed_manifest, same_bytes, signed_by, object, boolean, numeral, text, array,
}
use harbor_transfer_portal.Bundle.Members.{
  Bytes, validate_archive_members, TarInfo, in_payload, is_critical, is_file, member_name,
}
use harbor_transfer_portal.Bundle.Text.{among, same_text, same_text_iff, Text}
use mathlib.Core.List.{append_assoc, append-nil}
use harbor_transfer_portal.Bundle.Limits.{BundleLimits, is_unsafe_name}

inspect_members-named_files :
    (l : BundleLimits) (ms : List TarInfo) (total total' : ℕ) (files files' : List (Text × TarInfo))
    → inspect_members l ms total files ≡ ok (files', total')
    → files' ≡ files ++ named_files ms
unfolding inspect_members
inspect_members-named_files l [] total total' files files' e =
    let same : files ≡ files' = cc e in sym same ∙ sym (append-nil files)
inspect_members-named_files l (m ∷ ms) total total' files files' e =
    let (safe, e1) = refuse_if-ok (is_unsafe_name l (member_name m)) _ _ e in
    let (top, e2) =
      refuse_if-ok (not (is_critical (member_name m)) && not (in_payload (member_name m))) _ _ e1 in
    let (small, e3) =
      refuse_if-ok (is_file m && ltb l.bundle_max_extracted_bytes (total + m.size)) _ _ e2 in
    inspect_members-named_files l ms _ total' _ files' e3 ∙ elim (Bool-cases (is_file m)) [
      | inl regular_ ↦ rw regular_ (append_assoc files ((member_name m, m) ∷ []) (named_files ms))
      | inr other ↦ rw other refl
    ]

pub inspect_archive-known :
    (lib : Libraries) (l : BundleLimits) (members : List TarInfo) (archive_size : ℕ)
    (found : ArchiveInspection)
    → inspect_archive lib l members archive_size ≡ ok found
    → (validate_archive_members members ≡ ok tt)
      × (found.members ≡ members)
      × (found.file_members ≡ named_files members)
unfolding inspect_archive
inspect_archive-known lib l members archive_size found e =
    let (few, e1) = refuse_if-ok (ltb l.bundle_max_member_count (length members)) _ _ e in
    let (safe, e2) = then-ok (as_unsafe (validate_archive_members members)) _ e1 in
    let (pair, seen, e3) = bind-ok (inspect_members l members 0 []) _ e2 in
    let (low, e4) =
      refuse_if-ok (ltb 0 archive_size && lib.ratio_exceeds pair.1 archive_size) _ _ e3 in
    let names_known = inspect_members-named_files l members 0 pair.1 [] pair.0 seen in
    let same : record { members = members; file_members = pair.0 } ≡ found = cc e4 in
    (
      as_unsafe-ok (validate_archive_members members) safe,
      ap (λ (x : ArchiveInspection). x.members) (sym same),
      ap (λ (x : ArchiveInspection). x.file_members) (sym same) ∙ names_known,
    )
  where
    as_unsafe-ok : (r : Result String (Unit {0})) → as_unsafe r ≡ ok tt → r ≡ ok tt
    as_unsafe-ok (ok u) h = refl
    as_unsafe-ok (err x) h = cc

pub read_small_member-found :
    (l : BundleLimits) (path : Text) (found : ArchiveInspection) (bytes : Bytes)
    → read_small_member l path found ≡ ok bytes
    → (m : TarInfo) × (find_member path found.file_members ≡ some m) × (m.content ≡ bytes)
unfolding read_small_member
read_small_member-found l path found bytes e =
    elim (Option-cases (find_member path found.file_members)) [
      | inl missing ↦ absurd (let x = rw missing at e in cc)
      | inr (m, there_) ↦
          let e1 = rw there_ at e in
          let (short_header, e2) = refuse_if-ok (ltb l.bundle_max_metadata_bytes m.size) _ _ e1 in
          let (short, e3) =
            refuse_if-ok (ltb l.bundle_max_metadata_bytes (length m.content)) _ _ e2 in
          (m, there_, cc e3)
    ]

pub signed_by-key :
    (lib : Libraries) (manifest_bytes signature : Bytes) (keys : List Bytes) (fp : Text)
    → signed_by lib manifest_bytes signature keys ≡ ok fp
    → (key : Bytes) × (among key keys ≡ true)
      × (lib.verifies key signature manifest_bytes ≡ true)
      × (lib.fingerprint key ≡ fp)
signed_by-key lib manifest_bytes signature [] fp e = cc
signed_by-key lib manifest_bytes signature (k ∷ keys) fp e =
    elim (Bool-cases (lib.verifies k signature manifest_bytes)) [
      | inl good ↦ let e1 = rw good at e in (k, rw ((same_text_iff k k).1 refl) refl, good, cc e1)
      | inr bad ↦
          let (key, known, good, name) =
            signed_by-key lib manifest_bytes signature keys fp (rw bad at e) in
          (key, or_right (same_text k key) known, good, name)
    ]

pub parse_canonical_manifest-known :
    (lib : Libraries) (bytes : Bytes) (fields : JsonFields)
    → parse_canonical_manifest lib bytes ≡ ok fields
    → (lib.loads bytes ≡ some (object fields)) × (lib.dumps (drop_nulls (object fields)) ≡ bytes)
unfolding parse_canonical_manifest
parse_canonical_manifest-known lib bytes fields e = elim (Option-cases (lib.loads bytes)) [
  | inl bad ↦ absurd (let x = rw bad at e in cc)
  | inr (j, read) ↦ from_json j read (rw read at e)
]
  where
    from_json :
        (j : Json)
        → lib.loads bytes ≡ some j
        → parsed_manifest lib bytes (some j) ≡ ok fields
        → (lib.loads bytes ≡ some (object fields))
          × (lib.dumps (drop_nulls (object fields)) ≡ bytes)
    from_json null read h = cc
    from_json (boolean b) read h = cc
    from_json (numeral n) read h = cc
    from_json (text t) read h = cc
    from_json (array js) read h = cc
    from_json (object fs) read h =
        let (same, h1) =
          refuse_if-ok (not (same_bytes bytes (lib.dumps (drop_nulls (object fs))))) _ _ h in
        let these : fs ≡ fields = cc h1 in
        let equal =
          (same_text_iff bytes (lib.dumps (drop_nulls (object fs)))).0
            ((negated_iff (same_text bytes (lib.dumps (drop_nulls (object fs))))).0 same) in
        rw (← these) (read, sym equal)

pub model_validate-known :
    (lib : Libraries) (j : Json) (m : BundleManifest)
    → model_validate lib j ≡ ok m
    → lib.coerce_manifest j ≡ some m
unfolding model_validate
model_validate-known lib j m e = elim (Option-cases (lib.coerce_manifest j)) [
  | inl bad ↦ absurd (let x = rw bad at e in cc)
  | inr (n, good) ↦
      let e1 = rw good at e in
      let (valid, e2) = refuse_if-ok (not (is_valid_manifest n)) _ (ok n) e1 in
      let same : n ≡ m = cc e2 in good ∙ ap some same
]
