-- ===== src/Retention/Kept.antt =====
-- What the cleanup leaves alone.
use harbor_transfer_portal.Base.{
  Bool, Bool-cases, List, Option, String, [], any, arith, eq_iff, false, if◌then◌else◌, inl, inr,
  leb, ltb, none, not, refl, some, str_eq, true, ℕ, ◌&&◌, ◌||◌, ◌∙◌, ◌∷◌, ◌≡◌,
}
use harbor_transfer_portal.Domain.Status.{is_export}
use harbor_transfer_portal.Retention.Cleanup.{
  Directory, StoredItem, StoredOperation, clean_staging, file, find_item, is_live, is_removable,
  latest, link, operation_timestamp, owners, remove_direct_child_tree, remove_item, same_key, tree,
  unlink,
}

pub find_item-unlink :
    (name gone : String) (dir : Directory)
    → str_eq gone name ≡ false
    → find_item name (unlink gone dir) ≡ find_item name dir
find_item-unlink name gone [] e = refl
find_item-unlink name gone ((n, item) ∷ rest) e = elim (Bool-cases (str_eq n gone)) [
  | inl hit ↦
      let same = (eq_iff n gone).0 hit in
      let past : str_eq n name ≡ false = rw same e in
      rw (hit, past) (find_item-unlink name gone rest e)
  | inr miss ↦ rw miss (elim (Bool-cases (str_eq n name)) [
    | inl found ↦ rw found refl
    | inr past ↦ rw past (find_item-unlink name gone rest e)
  ])
]

pub remove_item-other :
    (name gone : String) (item : Option StoredItem) (dir : Directory)
    → str_eq gone name ≡ false
    → find_item name (remove_item gone item dir).2 ≡ find_item name dir
remove_item-other name gone none dir e = refl
remove_item-other name gone (some (file size)) dir e = refl
remove_item-other name gone (some link) dir e = find_item-unlink name gone dir e
remove_item-other name gone (some (tree size)) dir e = find_item-unlink name gone dir e

-- An owner that keeps its storage: one that has not ended, or whose date is after the cutoff.
abbrev pub keeps : ℕ → String → StoredOperation → Bool
keeps import_cutoff key o =
    not (is_export o.type)
    && same_key o.import_storage_key key
    && (is_live o || ltb import_cutoff (operation_timestamp o))

-- The newer of two times is past the cutoff if one of them is.
newer-past :
    (cutoff a b : ℕ)
    → (ltb cutoff a || ltb cutoff b) ≡ true
    → leb (if ltb b a then a else b) cutoff ≡ false
newer-past cutoff a b h = ground arith

owners-keep :
    (import_cutoff : ℕ) (key : String) (os : List StoredOperation)
    → any (keeps import_cutoff key) os ≡ true
    → (any is_live (owners key os) || ltb import_cutoff (latest (owners key os))) ≡ true
owners-keep import_cutoff key [] h = cc
owners-keep import_cutoff key (o ∷ os) h =
    elim (Bool-cases (not (is_export o.type) && same_key o.import_storage_key key)) [
      | inr other ↦
          let later = owners-keep import_cutoff key os (ground (arith, h, other)) in rw other later
      | inl own ↦ rw own (
          kept (is_live o) (any is_live (owners key os)) (operation_timestamp o)
            (latest (owners key os)) import_cutoff
            (elim (Bool-cases (any (keeps import_cutoff key) os)) [
              | inl later ↦
                  (let rest = owners-keep import_cutoff key os later in ground (arith, rest))
              | inr alone ↦ ground (arith, h, own, alone)
            ]))
    ]
  where
    kept :
        (live rest_live : Bool) (time rest_time cutoff : ℕ)
        → ((live || ltb cutoff time) || (rest_live || ltb cutoff rest_time)) ≡ true
        → ((live || rest_live) || ltb cutoff (if ltb rest_time time then time else rest_time))
          ≡ true
    kept live rest_live time rest_time cutoff h = ground arith

kept-not_removable :
    (import_cutoff : ℕ) (operations : List StoredOperation) (key : String)
    → any (keeps import_cutoff key) operations ≡ true
    → is_removable import_cutoff operations key ≡ false
kept-not_removable import_cutoff operations key h =
    let some_one = owners-keep import_cutoff key operations h in ground (arith, some_one)

-- If an import operation under the key has not ended, or has an end date (or without one a last
-- change) after the cutoff, then the cleanup leaves the storage of that key as it is, whatever keys
-- it goes through.
pub clean_staging-keeps :
    (import_cutoff : ℕ) (operations : List StoredOperation) (keys : List String) (key : String)
    (staging : Directory)
    → any (keeps import_cutoff key) operations ≡ true
    → find_item key (clean_staging import_cutoff operations keys staging).2 ≡ find_item key staging
unfolding clean_staging remove_direct_child_tree
clean_staging-keeps import_cutoff operations [] key staging h = refl
clean_staging-keeps import_cutoff operations (k ∷ keys) key staging h =
    elim (Bool-cases (is_removable import_cutoff operations k)) [
      | inr kept ↦ rw kept (clean_staging-keeps import_cutoff operations keys key staging h)
      | inl removable ↦ elim (Bool-cases (str_eq k key)) [
        | inl same ↦ absurd (
            let never = kept-not_removable import_cutoff operations key h in
            let k_is_key = (eq_iff k key).0 same in let clash = rw k_is_key at removable in cc)
        | inr other ↦ rw removable (
            clean_staging-keeps import_cutoff operations keys key
              (remove_item k (find_item k staging) staging).2 h
            ∙ remove_item-other key k (find_item k staging) staging other)
      ]
    ]
