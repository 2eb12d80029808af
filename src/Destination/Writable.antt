-- ===== src/Destination/Writable.antt =====
-- A destination counts as writable only by what Harbor states.
use harbor_transfer_portal.Base.{
  Bool, Bool-cases, and_true_iff, bind-ok, err, false, inl, inr, leb, ltb, negated_iff, none, not,
  ok, refl, refuse_if-ok, returned, true, ◌==◌, ◌≡◌, ◌||◌,
}
use harbor_transfer_portal.Bundle.Text.{Text}
use harbor_transfer_portal.Destination.Validator.{
  Answer, HarborApi, TokenReply, allowed_by, ask_project, ask_push, capability_of, is_success,
  push_capability, raw_token, without_cache,
}
use harbor_transfer_portal.Destination.Granted.{
  IsGranted, IsPushToken, IsTokenOf, among-IsIn, jwt_allows_push-IsPushToken, raw_token-IsTokenOf,
}

module _ (api : HarborApi) (repository : Text) where
  -- Harbor's answer to the request for a token lets push.
  record IsPushAnswer : Type 0 where
    reply : TokenReply
    answered : api.token_for repository ≡ ok reply
    from_200 : leb 200 reply.status_code ≡ true
    below_300 : ltb reply.status_code 300 ≡ true
    object : reply.is_object ≡ true
    token : Text
    of_reply : IsTokenOf reply token
    lets_push : IsPushToken api repository token

  allowed-IsPushAnswer :
      (reply : TokenReply)
      → api.token_for repository ≡ ok reply
      → allowed_by api repository reply ≡ ok true
      → IsPushAnswer
  allowed-IsPushAnswer reply a h =
      elim (Bool-cases (reply.status_code == 401 || reply.status_code == 403)) [
        | inl e ↦ absurd (let x = rw e at h in let y = returned x in cc)
        | inr e ↦
            let h0 = rw e at h in
            let (s, h1) = refuse_if-ok (not (is_success reply.status_code)) none _ h0 in
            let (o, h2) = refuse_if-ok (not reply.is_object) none _ h1 in
            let (token, t, h3) = bind-ok (raw_token reply) _ h2 in
            let (low, high) =
              (and_true_iff (leb 200 reply.status_code) (ltb reply.status_code 300)).0
                ((negated_iff (is_success reply.status_code)).0 s) in
            record {
              reply = reply;
              answered = a;
              from_200 = low;
              below_300 = high;
              object = (negated_iff reply.is_object).0 o;
              token = token;
              of_reply = raw_token-IsTokenOf reply token t;
              lets_push = jwt_allows_push-IsPushToken api token repository h3;
            }
      ]

  ask_push-IsPushAnswer : ask_push api repository ≡ ok true → IsPushAnswer
  unfolding ask_push
  ask_push-IsPushAnswer h =
      let (reply, a, h0) = bind-ok (api.token_for repository) _ h in allowed-IsPushAnswer reply a h0

  -- A destination is writable only by what Harbor states.
  pub capability_of-IsGranted :
      (project : Text)
      → (capability_of api project repository).write_allowed ≡ true
      → IsGranted api project repository
  unfolding capability_of ask_project
  capability_of-IsGranted project h = by_project (ask_project api project) refl h
    where
      granted :
          ask_project api project ≡ ok true
          → ask_push api repository ≡ ok true
          → IsGranted api project repository
      granted e f =
          let (names, n, e0) = bind-ok (api.project_names project) _ e in
          let a = ask_push-IsPushAnswer f in
          let t = a.lets_push in
          record {
            names = names;
            listed = n;
            exists = among-IsIn project names (returned e0);
            reply = a.reply;
            answered = a.answered;
            from_200 = a.from_200;
            below_300 = a.below_300;
            object = a.object;
            token = a.token;
            of_reply = a.of_reply;
            header = t.header;
            payload = t.payload;
            signature = t.signature;
            parts = t.parts;
            items = t.items;
            claim = t.claim;
            entry = t.entry;
            in_claim = t.in_claim;
            lets_push = t.lets_push;
          }

      by_push :
          (m : Answer Bool)
          → ask_push api repository ≡ m
          → ask_project api project ≡ ok true
          → (push_capability m).write_allowed ≡ true
          → IsGranted api project repository
      by_push (ok true) f e h = granted e f
      by_push (ok false) f e h = cc
      by_push (err x) f e h = cc

      by_project :
          (m : Answer Bool)
          → ask_project api project ≡ m
          → (without_cache api repository m).write_allowed ≡ true
          → IsGranted api project repository
      by_project (ok true) e h = by_push (ask_push api repository) refl e h
      by_project (ok false) e h = cc
      by_project (err x) e h = cc
