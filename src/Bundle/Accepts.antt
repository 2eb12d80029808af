-- ===== src/Bundle/Accepts.antt =====
-- An accepted bundle is authentic.
use harbor_transfer_portal.Base.{
  ap, length, none, refl, ℕ, ◌==◌, ◌∙◌, All, List, Option, bind-ok, bind_from, not, ok,
  refuse_if-ok, some, then-ok, true, ◌≡◌, ◌>>=◌,
}
use harbor_transfer_portal.Bundle.Accepted.{validate_archive_members-iff-IsSafeArchive}
use harbor_transfer_portal.Bundle.Authentic.{
  named_files, AreDistinct, IsAuthentic, IsDeclared, IsExact, contents,
}
use harbor_transfer_portal.Bundle.Inspection.{inspect_archive, read_small_member, ArchiveInspection}
use harbor_transfer_portal.Bundle.Listed.{parse_checksums-AreDistinct}
use harbor_transfer_portal.Bundle.Limits.{BundleResult, BundleLimits, check_archive_size}
use harbor_transfer_portal.Bundle.Manifest.{
  JsonFields, drop_nulls, model_validate, parse_canonical_manifest, require_supported_major,
  verify_signature, BundleManifest, Libraries, object,
}
use harbor_transfer_portal.Bundle.Proofs.{
  inspect_archive-known, model_validate-known, parse_canonical_manifest-known,
  read_small_member-found, signed_by-key,
}
use harbor_transfer_portal.Bundle.Text.{among, codes, Text}
use harbor_transfer_portal.Bundle.Verification.{
  SignedManifest, check_schema, extract_verified_members, read_manifest, ArchiveFile,
  BundleVerificationResult, ExtractTarget, SidecarFile, check_payload, verify_bundle,
  verify_members, verify_optional_sidecar,
}
use mathlib.Core.Path.{subst}
use harbor_transfer_portal.Bundle.Checksums.{parse_checksums, paths}
use harbor_transfer_portal.Bundle.Layout.{
  payload_names, same_set, validate_payload_layout, verify_payload_checksums,
}
use harbor_transfer_portal.Bundle.Members.{Bytes, TarInfo}
use harbor_transfer_portal.Bundle.Payload.{payload-IsExact, validate_payload_layout-known}
use harbor_transfer_portal.Bundle.Safety.{IsSafeArchive}

check_payload-known :
    (lib : Libraries) (l : BundleLimits) (manifest : BundleManifest) (found : ArchiveInspection)
    (bytes : Bytes)
    → check_payload lib l manifest found bytes ≡ ok tt
    → (listed : List Text) × (parse_checksums l (lib.decode bytes) >>= (λ cs. ok (paths cs))
        ≡ ok listed)
      × AreDistinct listed
      × (same_set (payload_names found.file_members) listed ≡ true)
      × All (IsDeclared manifest.artifacts) listed
      × All (IsExact lib (contents lib found.file_members listed)) manifest.artifacts
unfolding check_payload
check_payload-known lib l manifest found bytes e =
    let (checksums, parsed_, e1) = bind-ok (parse_checksums l (lib.decode bytes)) _ e in
    let (laid_out, e2) = then-ok (validate_payload_layout manifest found checksums) _ e1 in
    let (hashed, e3) = then-ok (verify_payload_checksums lib found checksums) _ e2 in
    let (same, covered) = validate_payload_layout-known manifest found checksums laid_out in
    (
      paths checksums,
      bind_from (parse_checksums l (lib.decode bytes)) _ parsed_ refl,
      parse_checksums-AreDistinct l (lib.decode bytes) parsed_,
      same,
      covered,
      payload-IsExact lib manifest checksums found hashed e3,
    )

read_manifest-known :
    (lib : Libraries) (manifest_bytes signature : Bytes) (keys : List Bytes)
    (signed : SignedManifest)
    → read_manifest lib manifest_bytes signature keys ≡ ok signed
    → (fs : JsonFields) × (lib.loads manifest_bytes ≡ some (object fs))
      × (lib.dumps (drop_nulls (object fs)) ≡ manifest_bytes)
      × (lib.coerce_manifest (object fs) ≡ some signed.manifest)
      × ((k : Bytes) × (among k keys ≡ true)
          × (lib.verifies k signature manifest_bytes ≡ true)
          × (lib.fingerprint k ≡ signed.signing_key_fingerprint))
unfolding read_manifest verify_signature
read_manifest-known lib manifest_bytes signature keys signed e =
    let (fs, read, e1) = bind-ok (parse_canonical_manifest lib manifest_bytes) _ e in
    let (major, e2) = then-ok (require_supported_major fs) _ e1 in
    let (schema, e3) = then-ok (check_schema lib fs) _ e2 in
    let (fp, checked_, e4) = bind-ok (verify_signature lib manifest_bytes signature keys) _ e3 in
    let (m, validated, e5) = bind-ok (model_validate lib (object fs)) _ e4 in
    let (parsed_, canonical_) = parse_canonical_manifest-known lib manifest_bytes fs read in
    let (long, by_one) = refuse_if-ok (not (length signature == 64)) _ _ checked_ in
    let (k, trusted_, good, name) = signed_by-key lib manifest_bytes signature keys fp by_one in
    let same : record { manifest = m; signing_key_fingerprint = fp } ≡ signed = cc e5 in
    (
      fs,
      parsed_,
      canonical_,
      model_validate-known lib (object fs) m validated
          ∙ ap (λ (x : SignedManifest). some x.manifest) same,
      (k, trusted_, good, name ∙ ap (λ (x : SignedManifest). x.signing_key_fingerprint) same),
    )

verify_members-known :
    (lib : Libraries) (l : BundleLimits) (trusted_keys : List Bytes)
    (extract_to : Option ExtractTarget) (archive : ArchiveFile) (opened : Option (List TarInfo))
    (r : BundleVerificationResult)
    → verify_members lib l trusted_keys extract_to archive opened ≡ ok r
    → (members : List TarInfo) × (opened ≡ some members)
      × IsSafeArchive members
      × IsAuthentic lib l trusted_keys members r.manifest r.signing_key_fingerprint
unfolding verify_members
verify_members-known lib l trusted_keys extract_to archive none r e = cc
verify_members-known lib l trusted_keys extract_to archive (some members) r e =
    let (found, inspected_, e1) = bind-ok (inspect_archive lib l members archive.size) _ e in
    let (manifest_bytes, read_m, e2) =
      bind-ok (read_small_member l (codes "manifest.json") found) _ e1 in
    let (signature, read_s, e3) = bind-ok (read_small_member l (codes "manifest.sig") found) _ e2 in
    let (checksums, read_c, e4) =
      bind-ok (read_small_member l (codes "checksums.sha256") found) _ e3 in
    let (signed_, read_all_, e5) =
      bind-ok (read_manifest lib manifest_bytes signature trusted_keys) _ e4 in
    let (payload_ok, e6) = then-ok (check_payload lib l signed_.manifest found checksums) _ e5 in
    let (extracted_, written, e7) =
      bind-ok (extract_verified_members found.members extract_to) _ e6 in
    let (safe, same_members, same_files) =
      inspect_archive-known lib l members archive.size found inspected_ in
    let (mf, has_m, m_content) =
      read_small_member-found l (codes "manifest.json") found manifest_bytes read_m in
    let (sf, has_s, s_content) =
      read_small_member-found l (codes "manifest.sig") found signature read_s in
    let (fs, parsed_, canonical_, coerced_, (k, trusted_, good, name)) =
      read_manifest-known lib manifest_bytes signature trusted_keys signed_ read_all_ in
    let (cf, has_c, c_content) =
      read_small_member-found l (codes "checksums.sha256") found checksums read_c in
    let (listed_, listed_in_, distinct_, complete_, declared_, exact_) =
      check_payload-known lib l signed_.manifest found checksums payload_ok in
    let of_manifest : signed_.manifest ≡ r.manifest = result-manifest e7 in
    let of_signer : signed_.signing_key_fingerprint ≡ r.signing_key_fingerprint =
      result-signer e7 in
    (
      members,
      refl,
      (validate_archive_members-iff-IsSafeArchive members).0 safe,
      record {
        manifest_file = mf;
        has_manifest = rw (← same_files) has_m;
        signature_file = sf;
        has_signature = rw (← same_files) has_s;
        key = k;
        trusted = trusted_;
        signed = rw (m_content, s_content) good;
        signer = name ∙ of_signer;
        fields = fs;
        parsed = rw m_content parsed_;
        canonical = rw m_content canonical_;
        coerced = coerced_ ∙ ap some of_manifest;
        checksums_file = cf;
        has_checksums = rw (← same_files) has_c;
        listed = listed_;
        listed_in = rw c_content listed_in_;
        distinct = distinct_;
        complete = rw (← same_files) complete_;
        declared =
            subst (λ (m : BundleManifest). All (IsDeclared m.artifacts) listed_) of_manifest
              declared_;
        exact =
            subst
              (λ (m : BundleManifest).
                All (IsExact lib (contents lib (named_files members) listed_)) m.artifacts)
              of_manifest
              (subst
                (λ files. All (IsExact lib (contents lib files listed_)) signed_.manifest.artifacts)
                same_files exact_);
      },
    )
  where
    result-manifest :
        {m : BundleManifest} {sha fp : Text} {n : ℕ} {ex : List (Text × Bytes)}
        → ◌≡◌ {A = BundleResult BundleVerificationResult}
            (ok (record {
              manifest = m;
              archive_sha256 = sha;
              archive_size = n;
              signing_key_fingerprint = fp;
              extracted = ex;
            }))
            (ok r)
        → m ≡ r.manifest
    result-manifest h = cc h

    result-signer :
        {m : BundleManifest} {sha fp : Text} {n : ℕ} {ex : List (Text × Bytes)}
        → ◌≡◌ {A = BundleResult BundleVerificationResult}
            (ok (record {
              manifest = m;
              archive_sha256 = sha;
              archive_size = n;
              signing_key_fingerprint = fp;
              extracted = ex;
            }))
            (ok r)
        → fp ≡ r.signing_key_fingerprint
    result-signer h = cc h

-- A result comes only from an archive whose members are safe, and whose manifest is signed by one
-- of the trusted keys, is in canonical form, and is the manifest of the result. The payload files
-- of the archive are exactly the paths that its file checksums.sha256 lists, which lists no path
-- twice; each lies under a payload path of the manifest; and for every artifact the digest and the
-- size that the manifest declares are those of the files that the archive holds under its payload
-- path, each of them counted once.
pub verify_bundle-IsAuthentic :
    (lib : Libraries) (l : BundleLimits) (trusted_keys : List Bytes) (sidecar : Option SidecarFile)
    (extract_to : Option ExtractTarget) (archive : ArchiveFile) (r : BundleVerificationResult)
    → verify_bundle lib l trusted_keys sidecar extract_to archive ≡ ok r
    → (members : List TarInfo) × (archive.members ≡ some members)
      × IsSafeArchive members
      × IsAuthentic lib l trusted_keys members r.manifest r.signing_key_fingerprint
unfolding verify_bundle
verify_bundle-IsAuthentic lib l trusted_keys sidecar extract_to archive r e =
    let (regular_, e1) = refuse_if-ok (not archive.is_regular) _ _ e in
    let (sized, e2) = then-ok (check_archive_size l archive.size) _ e1 in
    let (sidecar_ok, e3) =
      then-ok (verify_optional_sidecar l sidecar archive.name (lib.sha256 archive.bytes)) _ e2 in
    verify_members-known lib l trusted_keys extract_to archive archive.members r e3
