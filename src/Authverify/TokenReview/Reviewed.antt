-- ===== src/Authverify/TokenReview/Reviewed.antt =====
-- What stands behind the identity that a review gives (authverify/k8s_token_review.go, Validate).
use dev_health_go.Base.{
  ℕ, ◌*◌, ◌<◌, ◌≤◌, ◌≡◌, refl, sym, ap, subst, ◌∙◌, Str, codes, eq_str, eq_str→eq, is_empty, split,
  cons_head, length, List, [], ◌∷◌, ◌++◌, true, false, ◌==◌, ◌||◌, Option, none, some, Option-cases,
  ◌⊎◌, inl, inr, arith,
}
use dev_health_go.Platform.{Platform}
use dev_health_go.Pep.Json.{contains}
use dev_health_go.Authverify.Verifier.{second}
use dev_health_go.Authverify.Fetch.{Reply, no_response, responded}
use dev_health_go.Authverify.Exchange.{Fault, SubjectIdentity}
use dev_health_go.Authverify.TokenReview.{
  max_response_bytes, Request, Validator, Review, Seconds, since, before, request_for, whole_body,
  account_of, parse_service_account_username, live_until, unverified_jwt_expiry, validate,
}

-- Each piece with a separator before it.
lead : ℕ → List Str → Str
lead sep [] = []
lead sep (s ∷ ss) = sep ∷ (s ++ lead sep ss)

lead-cons_head :
    (sep c : ℕ) (ss : List Str) (s : Str)
    → lead sep ss ≡ sep ∷ s
    → lead sep (cons_head c ss) ≡ sep ∷ c ∷ s
unfolding lead
lead-cons_head sep c [] s h = absurd (ground arith)
lead-cons_head sep c (x ∷ xs) s h = ground (arith, h)

lead-split : (sep : ℕ) (s : Str) → lead sep (split sep s) ≡ sep ∷ s
unfolding lead split
lead-split sep [] = refl
lead-split sep (c ∷ s) =
    ground (arith, lead-split sep s, lead-cons_head sep c (split sep s) s (lead-split sep s))

-- The name that the cluster gives a service account.
abbrev pub account_name : Str → Str → Str
account_name namespace name = codes "system:serviceaccount:" ++ (namespace ++ (b':' ∷ (name ++ [])))

account_of-some :
    (parts : List Str) (namespace name : Str)
    → account_of parts ≡ some (namespace, name)
    → lead b':' parts ≡ b':' ∷ account_name namespace name
unfolding lead
account_of-some [] namespace name h = absurd (ground arith)
account_of-some (a ∷ []) namespace name h = absurd (ground arith)
account_of-some (a ∷ b ∷ []) namespace name h = absurd (ground arith)
account_of-some (a ∷ b ∷ c ∷ []) namespace name h = absurd (ground arith)
account_of-some (a ∷ b ∷ c ∷ d ∷ []) namespace name h =
    named a b c d (eq_str→eq a (codes "system")) (eq_str→eq b (codes "serviceaccount")) h
  where
    named :
        (a b c d : Str)
        → (eq_str a (codes "system") ≡ true → a ≡ codes "system")
        → (eq_str b (codes "serviceaccount") ≡ true → b ≡ codes "serviceaccount")
        → account_of (a ∷ b ∷ c ∷ d ∷ []) ≡ some (namespace, name)
        → lead b':' (a ∷ b ∷ c ∷ d ∷ []) ≡ b':' ∷ account_name namespace name
    named a b c d ea eb h =
        let same_a : a ≡ codes "system" = ground (arith, ea) in
        let same_b : b ≡ codes "serviceaccount" = ground (arith, eb) in
        let same_c : c ≡ namespace = ground arith in
        let same_d : d ≡ name = ground arith in rw (same_a, same_b, same_c, same_d) refl
account_of-some (a ∷ b ∷ c ∷ d ∷ e ∷ es) namespace name h = absurd (ground arith)

parse_service_account_username-some :
    (username namespace name : Str)
    → parse_service_account_username username ≡ some (namespace, name)
    → username ≡ account_name namespace name
unfolding parse_service_account_username
parse_service_account_username-some username namespace name h =
    let joined = lead-split b':' username in
    let named = account_of-some (split b':' username) namespace name h in
    ground (arith, joined, named)

whole_body-some :
    (r : Reply) (body : Str)
    → whole_body r ≡ some body
    → (status : ℕ) × (r ≡ responded status (some body))
      × ((status ≡ 201) ⊎ (status ≡ 200))
      × (length body ≤ max_response_bytes)
whole_body-some no_response body h = absurd (ground arith)
whole_body-some (responded status none) body h = absurd (ground arith)
whole_body-some (responded status (some b)) body h =
    (status, ground arith, accepted status (ground arith), ground arith)
  where
    accepted :
        (status : ℕ) → (status == 201 || status == 200) ≡ true → (status ≡ 201) ⊎ (status ≡ 200)
    accepted status e = ground arith

live_until-some :
    (s : Seconds) (now expires : ℕ)
    → live_until s now ≡ some expires
    → (n : ℕ) × (s ≡ since n) × (expires ≡ n * second) × (now < expires)
live_until-some (before n) now expires h = absurd (ground arith)
live_until-some (since n) now expires h = (n, refl, ground arith, ground arith)

module _ (p : Platform) (bind_expiry : Str → Option Str) (parse_int : Str → Option Seconds)
    (bind : Str → Option Review) (reviewer_token : Option Str) (send : Request → Reply) (now : ℕ)
    (v : Validator) (subject : Str) where
  -- What stands behind an identity.
  pub record IsReviewed (identity : SubjectIdentity) : Type 0 where
    pub reviewer : Str
    pub status : ℕ
    pub body : Str
    pub review : Review
    pub exp : ℕ
    pub has_subject : is_empty (p.trim_space subject) ≡ false
    pub has_reviewer : reviewer_token ≡ some reviewer
    pub reviewer_given : is_empty (p.trim_space reviewer) ≡ false
    pub answered : send (request_for v reviewer subject) ≡ responded status (some body)
    pub accepted : (status ≡ 201) ⊎ (status ≡ 200)
    pub small : length body ≤ max_response_bytes
    pub bound : bind body ≡ some review
    pub authenticated : review.authenticated ≡ true
    pub for_audience : contains review.audiences v.audience ≡ true
    pub named : review.username ≡ account_name identity.namespace identity.service_account_name
    pub has_uid : is_empty (p.trim_space review.uid) ≡ false
    pub uid : identity.service_account_uid ≡ review.uid
    pub trust_domain : identity.trust_domain ≡ v.trust_domain
    pub dated : unverified_jwt_expiry p bind_expiry parse_int subject ≡ inr (since exp)
    pub expires : identity.expires_at ≡ exp * second
    pub alive : now < identity.expires_at

  module _ (identity : SubjectIdentity)
      (h : validate p bind_expiry parse_int bind reviewer_token send now v subject ≡ inr identity)
      (reviewer : Str) (r : reviewer_token ≡ some reviewer) where
    module _ (body : Str) (review : Review) (account : Str × Str) (seconds : Seconds) (expires : ℕ)
        (w : whole_body (send (request_for v reviewer subject)) ≡ some body)
        (b : bind body ≡ some review)
        (a : parse_service_account_username review.username ≡ some account)
        (s : unverified_jwt_expiry p bind_expiry parse_int subject ≡ inr seconds)
        (l : live_until seconds now ≡ some expires) where
      same_identity : identity ≡ record {
        trust_domain = v.trust_domain;
        namespace = account.0;
        service_account_name = account.1;
        service_account_uid = review.uid;
        expires_at = expires;
      }
      unfolding validate
      same_identity = ground arith

      from_answers : IsReviewed identity
      unfolding validate
      from_answers =
          let (status, answered, accepted, small) =
            whole_body-some (send (request_for v reviewer subject)) body w in
          let (exp, dated, expiry, alive) = live_until-some seconds now expires l in
          record {
            reviewer = reviewer;
            status = status;
            body = body;
            review = review;
            exp = exp;
            has_subject = ground arith;
            has_reviewer = r;
            reviewer_given = ground arith;
            answered = answered;
            accepted = accepted;
            small = small;
            bound = b;
            authenticated = ground arith;
            for_audience = ground arith;
            named =
                parse_service_account_username-some review.username identity.namespace
                  identity.service_account_name (ground (arith, same_identity));
            has_uid = ground arith;
            uid = ap (λ i. i.service_account_uid) same_identity;
            trust_domain = ap (λ i. i.trust_domain) same_identity;
            dated = s ∙ ap inr dated;
            expires = ap (λ i. i.expires_at) same_identity ∙ expiry;
            alive = subst (λ n. now < n) (sym (ap (λ i. i.expires_at) same_identity)) alive;
          }

    from_review :
        (body : Str) (review : Review) (account : Option (Str × Str)) (x : Fault ⊎ Seconds)
        → whole_body (send (request_for v reviewer subject)) ≡ some body
        → bind body ≡ some review
        → parse_service_account_username review.username ≡ account
        → unverified_jwt_expiry p bind_expiry parse_int subject ≡ x
        → IsReviewed identity
    unfolding validate
    from_review body review none x w b a s = absurd (ground arith)
    from_review body review (some account) (inl err) w b a s = absurd (ground arith)
    from_review body review (some account) (inr seconds) w b a s =
        elim (Option-cases (live_until seconds now)) [
          | inl l ↦ absurd (ground arith)
          | inr (expires, l) ↦ from_answers body review account seconds expires w b a s l
        ]

    from_reply :
        (body : Option Str)
        → whole_body (send (request_for v reviewer subject)) ≡ body
        → IsReviewed identity
    unfolding validate
    from_reply none w = absurd (ground arith)
    from_reply (some body) w = elim (Option-cases (bind body)) [
      | inl b ↦ absurd (ground arith)
      | inr (review, b) ↦
          from_review body review (parse_service_account_username review.username)
            (unverified_jwt_expiry p bind_expiry parse_int subject) w b refl refl
    ]

  -- An identity that Validate gives is the account, with its unique id, that the API server named, in an
  -- answer of status 200 or 201 within the limit to a review of this very token, asked with the reviewer's own
  -- token, as authenticated and for the validator's audience; the trust domain is the configured one, and the
  -- token's own expiry has not passed.
  pub validate-IsReviewed :
      (identity : SubjectIdentity)
      → validate p bind_expiry parse_int bind reviewer_token send now v subject ≡ inr identity
      → IsReviewed identity
  unfolding validate
  validate-IsReviewed identity h = elim (Option-cases reviewer_token) [
    | inl r ↦ absurd (ground arith)
    | inr (reviewer, r) ↦
        from_reply identity h reviewer r (whole_body (send (request_for v reviewer subject))) refl
  ]
