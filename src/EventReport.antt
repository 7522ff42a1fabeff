-- ===== src/EventReport.antt =====
-- cli/internal/eventreport/report.go: the requests that report events and profiles. Encoding, HTTP
-- and the time of an event are arguments; goroutines and the channel are not modelled.
mod Batches
mod Tests
use skillledger.Base.{
  ℕ, zero, suc, ◌+◌, ◌-◌, ◌*◌, ◌/◌, ◌%◌, ◌^◌, ◌≤◌, ◌<◌, min, ◌≡◌, refl, sym, ap, ◌∙◌, fun_ext, ◌≢◌,
  ◌↔◌, ◌⊎◌, inl, inr, Bool, true, false, ◌&&◌, ◌||◌, not, Option, none, some, List, [], ◌∷◌, ◌++◌,
  map, append-nil, append_assoc, arith, ltb, leb, nat_beq, if◌then◌else◌, nat_beq_iff, ltb→lt,
  leb→le, Eq, ◌==◌, nat_eq, Bool-cases, Option-cases, length, get_elem?, set, take, drop, replicate,
  length-append, length-set, length-replicate, length-take, length-drop, get_elem?-set_self,
  get_elem?-set_ne, get_elem?-lt, take-drop-suc, take-min, take-take, take-append-drop, drop-append,
  List-cases, All, All-append, All-map, Text, codes, text_eq, text_eq→≡, text_eq_iff, text_eq_inst,
  join, has_prefix, has_suffix, to_lower, Outcome, ok, err, ◌>>=◌, ◌>>◌, wrap, Outcome-cases,
  >>=-ok, wrap-ok, trim_space, split_on, text_leb, insert_sorted, sort_strings, Dict, lookup, put,
  remove, keys, lookup-put, lookup-put_self, lookup-put_ne, lookup-remove, length-put,
}
use skillledger.Credentials.{Credentials, CredentialWorld, ensure_fresh}

-- Event, with the encoding of its details.
pub record Event : Type 0 where
  pub type : Text
  pub ecosystem : Text
  pub skill_id : Text
  pub rule : Text
  pub severity : Text
  pub details : Text
  pub timestamp : ℕ

-- EventBatch
pub record EventBatch : Type 0 where
  pub org_slug : Text
  pub events : List Event

-- Profile
pub record Profile : Type 0 where
  pub org_slug : Text
  pub skill_id : Text
  pub ecosystem : Text
  pub capabilities : List Text
  pub detected_at : ℕ

-- A POST request: its endpoint, token and body.
pub record Post : Type 0 where
  pub endpoint : Text
  pub token : Text
  pub body : Text

pub record ReportWorld : Type 0 where
  pub credentials : CredentialWorld
  pub marshal_batch : EventBatch → Outcome Text
  pub marshal_profile : Profile → Outcome Text
  pub new_request : Text → Text → Outcome (Unit {0})

-- maxBatchSize
abbrev pub max_batch_size : ℕ
max_batch_size = 100

-- The slices of the loop in ReportEventsAsync.
unfoldable pub batches : ℕ → List Event → List (List Event)
batches zero es = []
batches (suc n) [] = []
batches (suc n) (e ∷ es) = take max_batch_size (e ∷ es) ∷ batches n (drop max_batch_size (e ∷ es))

-- A request that can be made; the answer to it is only logged.
unfoldable pub post : ReportWorld → Text → Text → Outcome Text → List Post
post w endpoint token (err e) = []
post w endpoint token (ok body) = elim (w.new_request endpoint body) [
  | err e ↦ []
  | ok _ ↦ record { endpoint = endpoint; token = token; body = body } ∷ []
]

-- The rounds of the loop, each for one slice.
unfoldable pub post_batches : ReportWorld → Text → Text → Text → List (List Event) → List Post
unfolding post
post_batches w endpoint token org_slug [] = []
post_batches w endpoint token org_slug (events ∷ rest) =
    post w endpoint token (w.marshal_batch (record { org_slug = org_slug; events = events }))
    ++ post_batches w endpoint token org_slug rest

-- The goroutine of ReportEventsAsync: the requests it sends and the files afterwards.
unfoldable pub report_events :
    ReportWorld → Text → Text → List Event → Dict Text → List Post × Dict Text
unfolding post_batches batches
report_events w service_url org_slug events files =
    let (fresh, files') = ensure_fresh w.credentials service_url files in
    elim fresh [
      | err e ↦ ([], files')
      | ok creds ↦ (
        post_batches w (service_url ++ codes "/ee/v1/events") creds.access_token org_slug
            (batches (length events) events),
        files',
      )
    ]

-- The goroutine of ReportProfileAsync.
unfoldable pub report_profile : ReportWorld → Text → Profile → Dict Text → List Post × Dict Text
unfolding post
report_profile w service_url profile files =
    let (fresh, files') = ensure_fresh w.credentials service_url files in
    elim fresh [
      | err e ↦ ([], files')
      | ok creds ↦ (
        post w (service_url ++ codes "/ee/v1/profiles") creds.access_token
            (w.marshal_profile profile),
        files',
      )
    ]
