-- ===== src/Destination/Granted.antt =====
-- What Harbor has to state before a destination counts as writable, written without the validator.
use harbor_transfer_portal.Base.{
  Bool-cases, List, Option, [], and_true_iff, any, ap, bind-ok, false, inl, inr, leb, ltb, none, ok,
  refl, refuse_if-ok, returned, some, sym, true, ◌&&◌, ◌∙◌, ◌∷◌, ◌≡◌, ◌⊎◌,
}
use harbor_transfer_portal.Bundle.Text.{
  Text, among, codes, is_empty, same_text, same_text_iff, split,
}
use mathlib.Core.Path.{subst}
use harbor_transfer_portal.Destination.Model.{same_option}
use harbor_transfer_portal.Destination.Validator.{
  AccessItem, HarborApi, TokenField, TokenReply, absent_field, allows, allows_any, first_truthy,
  jwt_allows_push, lets_push_by, other_field, payload_part, raw_token, text_field, token_text,
}

-- The text stands in the list.
pub data IsIn {ℓ} {A : Type ℓ} (x : A) : List A → Type ℓ where
  first : {xs : List A} → IsIn x (x ∷ xs)
  further : {y : A} {xs : List A} → IsIn x xs → IsIn x (y ∷ xs)

-- An entry of the claim lets push to the repository.
pub record IsPushEntry (repository : Text) (item : AccessItem) : Type 0 where
  pub actions : List Text
  pub of_repositories : item.kind ≡ some (codes "repository")
  pub of_this : item.name ≡ some repository
  pub has_actions : item.actions ≡ some actions
  pub can_push : IsIn (codes "push") actions

-- The token of a reply: its field `token` unless that is empty, and then its field `access_token`.
pub data IsTokenOf (reply : TokenReply) (t : Text) : Type 0 where
  by_token : reply.token ≡ text_field t → is_empty t ≡ false → IsTokenOf reply t
  by_access_token :
      (reply.token ≡ absent_field) ⊎ (reply.token ≡ text_field [])
      → reply.access_token ≡ text_field t
      → is_empty t ≡ false
      → IsTokenOf reply t

-- Harbor lists the project, answers the request for a token with success, and the payload of the
-- token, the second of its three parts, has an entry that lets push to the repository.
pub record IsGranted (api : HarborApi) (project repository : Text) : Type 0 where
  pub names : List Text
  pub listed : api.project_names project ≡ ok names
  pub exists : IsIn project names
  pub reply : TokenReply
  pub answered : api.token_for repository ≡ ok reply
  pub from_200 : leb 200 reply.status_code ≡ true
  pub below_300 : ltb reply.status_code 300 ≡ true
  pub object : reply.is_object ≡ true
  pub token : Text
  pub of_reply : IsTokenOf reply token
  pub header : Text
  pub payload : Text
  pub signature : Text
  pub parts : split 46 token ≡ header ∷ payload ∷ signature ∷ []
  pub items : List AccessItem
  pub claim : api.access_claim payload ≡ ok (some items)
  pub entry : AccessItem
  pub in_claim : IsIn entry items
  pub lets_push : IsPushEntry repository entry

pub among-IsIn : (t : Text) (ts : List Text) → among t ts ≡ true → IsIn t ts
among-IsIn t [] h = cc
among-IsIn t (s ∷ ts) h = elim (Bool-cases (same_text s t)) [
  | inl e ↦ subst (λ u. IsIn t (u ∷ ts)) (sym ((same_text_iff s t).0 e)) first
  | inr e ↦ further (among-IsIn t ts (rw e at h))
]

among_actions :
    (o : Option (List Text))
    → lets_push_by o ≡ true
    → (actions : List Text) × (o ≡ some actions) × IsIn (codes "push") actions
among_actions none h = cc
among_actions (some actions) h = (actions, refl, among-IsIn (codes "push") actions h)

allows-IsPushEntry :
    (repository : Text) (item : AccessItem)
    → allows repository item ≡ true
    → IsPushEntry repository item
allows-IsPushEntry repository item h =
    let has_push = lets_push_by item.actions in
    let named = same_option item.name (some repository) in
    let of_repository = same_option item.kind (some (codes "repository")) in
    let (h0, h1) = (and_true_iff (of_repository && named) has_push).0 h in
    let (k, n) = (and_true_iff of_repository named).0 h0 in
    let (actions, e, p) = among_actions item.actions h1 in
    record {
      actions = actions;
      of_repositories = same_some item.kind (codes "repository") k;
      of_this = same_some item.name repository n;
      has_actions = e;
      can_push = p;
    }
  where
    same_some : (o : Option Text) (t : Text) → same_option o (some t) ≡ true → o ≡ some t
    same_some none t h = cc
    same_some (some s) t h = ap some ((same_text_iff s t).0 h)

any-allows :
    (repository : Text) (items : List AccessItem)
    → any (λ item. allows repository item) items ≡ true
    → (item : AccessItem) × IsIn item items × IsPushEntry repository item
any-allows repository [] h = cc
any-allows repository (i ∷ items) h = elim (Bool-cases (allows repository i)) [
  | inl e ↦ (i, first, allows-IsPushEntry repository i e)
  | inr e ↦ let (item, p, q) = any-allows repository items (rw e at h) in (item, further p, q)
]

-- A token that lets push.
pub record IsPushToken (api : HarborApi) (repository token : Text) : Type 0 where
  pub header : Text
  pub payload : Text
  pub signature : Text
  pub parts : split 46 token ≡ header ∷ payload ∷ signature ∷ []
  pub items : List AccessItem
  pub claim : api.access_claim payload ≡ ok (some items)
  pub entry : AccessItem
  pub in_claim : IsIn entry items
  pub lets_push : IsPushEntry repository entry

allowed_claims :
    (repository : Text) (o : Option (List AccessItem))
    → allows_any repository o ≡ true
    → (items : List AccessItem) × (o ≡ some items)
      × ((item : AccessItem) × IsIn item items × IsPushEntry repository item)
allowed_claims repository none h = cc
allowed_claims repository (some items) h = (items, refl, any-allows repository items h)

payload-parts :
    (ps : List Text) (payload : Text)
    → payload_part ps ≡ ok payload
    → (header : Text) × (signature : Text) × (ps ≡ header ∷ payload ∷ signature ∷ [])
payload-parts [] payload h = cc
payload-parts (a ∷ []) payload h = cc
payload-parts (a ∷ b ∷ []) payload h = cc
payload-parts (a ∷ b ∷ c ∷ []) payload h = (a, c, ap (λ x. a ∷ x ∷ c ∷ []) (returned h))
payload-parts (a ∷ b ∷ c ∷ d ∷ e) payload h = cc

pub jwt_allows_push-IsPushToken :
    (api : HarborApi) (token repository : Text)
    → jwt_allows_push api token repository ≡ ok true
    → IsPushToken api repository token
unfolding jwt_allows_push
jwt_allows_push-IsPushToken api token repository h =
    let (payload, p, h0) = bind-ok (payload_part (split 46 token)) _ h in
    let (claims, c, h1) = bind-ok (api.access_claim payload) _ h0 in
    let (header, signature, parts) = payload-parts (split 46 token) payload p in
    let (items, o, (item, i, q)) = allowed_claims repository claims (returned h1) in
    record {
      header = header;
      payload = payload;
      signature = signature;
      parts = parts;
      items = items;
      claim = c ∙ ap (λ x. ok x) o;
      entry = item;
      in_claim = i;
      lets_push = q;
    }

token-known :
    (f : TokenField) (t : Text) → token_text f ≡ ok t → (f ≡ text_field t) × (is_empty t ≡ false)
token-known absent_field t h = cc
token-known other_field t h = cc
token-known (text_field s) t h =
    let (e, h0) = refuse_if-ok (is_empty s) none _ h in
    let same = returned h0 in (ap text_field same, subst (λ x. is_empty x ≡ false) same e)

pub raw_token-IsTokenOf :
    (reply : TokenReply) (t : Text) → raw_token reply ≡ ok t → IsTokenOf reply t
raw_token-IsTokenOf reply t h = by_field reply.token refl h
  where
    by_field :
        (f : TokenField)
        → reply.token ≡ f
        → token_text (first_truthy f reply.access_token) ≡ ok t
        → IsTokenOf reply t
    by_field absent_field e h =
        let (a, b) = token-known reply.access_token t h in by_access_token (inl e) a b
    by_field other_field e h = cc
    by_field (text_field []) e h =
        let (a, b) = token-known reply.access_token t h in by_access_token (inr e) a b
    by_field (text_field (c ∷ s)) e h =
        let (a, b) = token-known (text_field (c ∷ s)) t h in by_token (e ∙ a) b
