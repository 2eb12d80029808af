-- ===== src/Destination/Validator.antt =====
-- HarborDestinationValidator of backend/app/services/harbor_destination_validator.py. What Harbor
-- answers, and the decoding of a token's payload, are parameters.
use harbor_transfer_portal.Base.{
  Bool, List, Option, Result, String, [], any, err, false, if◌then◌else◌, leb, ltb, none, not, ok,
  or_else, refuse_if, some, true, ℕ, ◌&&◌, ◌==◌, ◌>>=◌, ◌>>◌, ◌||◌, ◌∷◌,
}
use harbor_transfer_portal.Bundle.Text.{Text, among, codes, is_empty, same_text, split}
use harbor_transfer_portal.Destination.Model.{same_option}
use harbor_transfer_portal.Destination.Planning.{DestinationCapability}

-- One entry of the claim `access`; a field that is absent or of another type is none.
pub record AccessItem : Type 0 where
  pub kind : Option Text
  pub name : Option Text
  pub actions : Option (List Text)

-- A field of the body: absent or false, another value, or a text.
pub data TokenField : Type 0 where
  absent_field other_field : TokenField
  text_field : Text → TokenField

-- The answer of the token service: its status, and the object of its body.
pub record TokenReply : Type 0 where
  pub status_code : ℕ
  pub is_object : Bool
  pub token : TokenField
  pub access_token : TokenField

-- A call of Harbor may raise with a code or without one; the claims of a payload are none if it is
-- no object or has no list `access`.
pub record HarborApi : Type 0 where
  pub project_names : Text → Result (Option String) (List Text)
  pub token_for : Text → Result (Option String) TokenReply
  pub access_claim : Text → Result (Option String) (Option (List AccessItem))

pub record Caches : Type 0 where
  pub projects : List (Text × Bool)
  pub writes : List (Text × Bool)

abbrev pub cached : Text → List (Text × Bool) → Option Bool
cached key [] = none
cached key (e ∷ es) = let rest = cached key es in if same_text (e.0) key then some (e.1) else rest

abbrev pub Answer {ℓ} : Type ℓ → Type ℓ
Answer A = Result (Option String) A

abbrev pub lets_push_by : Option (List Text) → Bool
lets_push_by none = false
lets_push_by (some actions) = among (codes "push") actions

abbrev pub allows : Text → AccessItem → Bool
allows repository item =
    same_option item.kind (some (codes "repository"))
    && same_option item.name (some repository)
    && lets_push_by item.actions

abbrev pub allows_any : Text → Option (List AccessItem) → Bool
allows_any repository none = false
allows_any repository (some items) = any (λ item. allows repository item) items

-- The payload is the second of the three parts of a token.
abbrev pub payload_part : List Text → Answer Text
payload_part (header ∷ (payload ∷ (signature ∷ []))) = ok payload
payload_part _ = err none

-- _jwt_allows_push
unfoldable pub jwt_allows_push : HarborApi → Text → Text → Answer Bool
jwt_allows_push api token repository = do
  payload ← payload_part (split 46 token)
  claims ← api.access_claim payload
  ok (allows_any repository claims)

-- payload.get("token") or payload.get("access_token")
abbrev pub first_truthy : TokenField → TokenField → TokenField
first_truthy absent_field other = other
first_truthy other_field other = other_field
first_truthy (text_field t) other = if is_empty t then other else text_field t

abbrev pub token_text : TokenField → Answer Text
token_text (text_field t) = do refuse_if (is_empty t) none; ok t
token_text _ = err none

abbrev pub raw_token : TokenReply → Answer Text
raw_token reply = token_text (first_truthy reply.token reply.access_token)

abbrev pub is_success : ℕ → Bool
is_success status = leb 200 status && ltb status 300

abbrev pub allowed_by : HarborApi → Text → TokenReply → Answer Bool
allowed_by api repository reply =
    if reply.status_code == 401 || reply.status_code == 403 then ok false else (do
      refuse_if (not (is_success reply.status_code)) none
      refuse_if (not reply.is_object) none
      token ← raw_token reply
      jwt_allows_push api token repository)

-- What Harbor says when it is asked.
unfoldable pub ask_project : HarborApi → Text → Answer Bool
ask_project api project = do names ← api.project_names project; ok (among project names)

unfoldable pub ask_push : HarborApi → Text → Answer Bool
ask_push api repository = do reply ← api.token_for repository; allowed_by api repository reply

-- The answer of a cache or of Harbor, and the entries after it: an answer that did not raise is kept.
abbrev pub kept_answer : Text → List (Text × Bool) → Answer Bool → Answer Bool × List (Text × Bool)
kept_answer key entries (ok b) = (ok b, (key, b) ∷ entries)
kept_answer key entries (err e) = (err e, entries)

abbrev pub answered :
    Text → List (Text × Bool) → Answer Bool → Option Bool → Answer Bool × List (Text × Bool)
answered key entries fresh (some b) = (ok b, entries)
answered key entries fresh none = kept_answer key entries fresh

-- _project_exists
unfoldable pub project_exists :
    HarborApi → List (Text × Bool) → Text → Answer Bool × List (Text × Bool)
project_exists api entries project =
    answered project entries (ask_project api project) (cached project entries)

-- _repository_push_allowed
unfoldable pub repository_push_allowed :
    HarborApi → List (Text × Bool) → Text → Answer Bool × List (Text × Bool)
repository_push_allowed api entries repository =
    answered repository entries (ask_push api repository) (cached repository entries)

abbrev pub denied : Bool → Option String → DestinationCapability
denied exists code = record { project_exists = exists; write_allowed = false; error_code = code }

abbrev pub raised : Option String → DestinationCapability
raised code = denied false (some (or_else code "import_destination_validation_failed"))

-- The capability by the answer on the push.
abbrev pub push_capability : Answer Bool → DestinationCapability
push_capability (err e) = raised e
push_capability (ok false) = denied true (some "import_destination_write_forbidden")
push_capability (ok true) = record {
  project_exists = true;
  write_allowed = true;
  error_code = none;
}

abbrev pub validated :
    HarborApi → Caches → Text → Answer Bool × List (Text × Bool) → DestinationCapability × Caches
validated api caches repository (err e, entries) = (raised e, record caches { projects = entries })
validated api caches repository (ok false, entries) =
    (denied false (some "import_destination_project_missing"), record caches { projects = entries })
validated api caches repository (ok true, entries) =
    let push = repository_push_allowed api caches.writes repository in
    (push_capability (push.0), record { projects = entries; writes = push.1 })

-- validate
unfoldable pub validate : HarborApi → Caches → Text → Text → DestinationCapability × Caches
validate api caches project repository =
    validated api caches repository (project_exists api caches.projects project)

-- What Harbor itself says of a destination.
abbrev pub without_cache : HarborApi → Text → Answer Bool → DestinationCapability
without_cache api repository (err e) = raised e
without_cache api repository (ok false) = denied false (some "import_destination_project_missing")
without_cache api repository (ok true) = push_capability (ask_push api repository)

unfoldable pub capability_of : HarborApi → Text → Text → DestinationCapability
capability_of api project repository = without_cache api repository (ask_project api project)
