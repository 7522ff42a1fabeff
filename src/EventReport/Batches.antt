-- ===== src/EventReport/Batches.antt =====
-- cli/internal/eventreport/report.go: the batches of ReportEventsAsync have every event once.
use skillledger.Base.{
  ℕ, zero, suc, ◌≤◌, ◌<◌, ◌≡◌, refl, ap, ◌∙◌, List, [], ◌∷◌, ◌++◌, map, arith, nat_eq, length, take,
  drop, length-take, length-drop, take-append-drop, All, Text, codes, text_eq_inst, ok, Dict,
}
use skillledger.Credentials.{Credentials, ensure_fresh}
use skillledger.EventReport.{
  Event, EventBatch, Post, ReportWorld, max_batch_size, batches, post, post_batches, report_events,
}

-- The elements of all the lists, in order.
abbrev joined : List (List Event) → List Event
joined [] = []
joined (es ∷ rest) = es ++ joined rest

abbrev Batch : List Event → Type 0
Batch es = (0 < length es) × (length es ≤ max_batch_size)

joined-batches : (n : ℕ) (es : List Event) → length es ≤ n → joined (batches n es) ≡ es
unfolding batches
joined-batches zero [] h = refl
joined-batches zero (e ∷ es) h = ground arith
joined-batches (suc n) [] h = refl
joined-batches (suc n) (e ∷ es) h =
    let rest =
      joined-batches n (drop max_batch_size (e ∷ es))
        (omega (arith, length-drop max_batch_size (e ∷ es))) in
    ap (λ r. take max_batch_size (e ∷ es) ++ r) rest ∙ take-append-drop max_batch_size (e ∷ es)

batches-All : (n : ℕ) (es : List Event) → All Batch (batches n es)
unfolding batches
batches-All zero es = tt
batches-All (suc n) [] = tt
batches-All (suc n) (e ∷ es) =
    let size = length-take max_batch_size (e ∷ es) in
    ((omega arith, omega arith), batches-All n (drop max_batch_size (e ∷ es)))

module _ (w : ReportWorld) (encode : EventBatch → Text)
    (marshals : (b : EventBatch) → w.marshal_batch b ≡ ok (encode b))
    (requests : (endpoint body : Text) → w.new_request endpoint body ≡ ok tt) where
  -- The request for one batch.
  abbrev pub post_of : Text → Text → Text → List Event → Post
  post_of endpoint token org_slug es = record {
    endpoint = endpoint;
    token = token;
    body = encode (record { org_slug = org_slug; events = es });
  }

  post_batches-map :
      (endpoint token org_slug : Text) (parts : List (List Event))
      → post_batches w endpoint token org_slug parts ≡ map (post_of endpoint token org_slug) parts
  unfolding post_batches post
  post_batches-map endpoint token org_slug [] = refl
  post_batches-map endpoint token org_slug (es ∷ rest) =
      rw
        (
          marshals (record { org_slug = org_slug; events = es }),
          post,
          requests endpoint (encode (record { org_slug = org_slug; events = es })),
          post_batches-map endpoint token org_slug rest,
        )
        refl

  -- With a token every event is sent exactly once and in order, in batches of at least one and at
  -- most a hundred events.
  pub report_events-sends :
      (service_url org_slug : Text) (events : List Event) (files files' : Dict Text)
      (c : Credentials)
      → ensure_fresh w.credentials service_url files ≡ (ok c, files')
      → (parts : List (List Event)) × (joined parts ≡ events)
        × All Batch parts
        × (report_events w service_url org_slug events files ≡ (
          map (post_of (service_url ++ codes "/ee/v1/events") c.access_token org_slug) parts,
          files',
        ))
  unfolding report_events
  report_events-sends service_url org_slug events files files' c h = (
    batches (length events) events,
    joined-batches (length events) events (omega arith),
    batches-All (length events) events,
    rw (report_events, ap (λ p. p.0) h, ap (λ p. p.1) h)
        (ap (λ p. (p, files'))
          (post_batches-map (service_url ++ codes "/ee/v1/events") c.access_token org_slug
            (batches (length events) events))),
  )
