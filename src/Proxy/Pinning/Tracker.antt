-- ===== src/Proxy/Pinning/Tracker.antt =====
-- requestTracker of proxy/pinning.go.
use skillledger.Base.{
  ◌≡◌, ap, ◌≢◌, Option, none, some, arith, Text, text_eq_iff, lookup, put, remove, lookup-put,
  lookup-remove,
}
use skillledger.Proxy.Pinning.{Tracker, track_request, resolve_response}

resolve_there :
    (id method : Text) (t : Tracker)
    → lookup id t ≡ some method
    → resolve_response id t ≡ (some method, remove id t)
unfolding resolve_response
resolve_there id method t e = rw (resolve_response, e)

resolve_gone : (id : Text) (t : Tracker) → lookup id t ≡ none → (resolve_response id t).0 ≡ none
unfolding resolve_response
resolve_gone id t e = rw (resolve_response, e)

-- A tracked request is resolved once: the first response with its id gets the method, a second one
-- finds none, and the other pending ids are as before.
pub track-resolve :
    (id method other : Text) (t : Tracker)
    → let (found, after) = resolve_response id (track_request id method t) in
      (found ≡ some method)
      × ((resolve_response id after).0 ≡ none)
      × (other ≢ id → lookup other after ≡ lookup other t)
unfolding track_request
track-resolve id method other t =
    let kept = put id method t in
    let resolved =
      resolve_there id method kept (ground (arith, lookup-put id id method t, text_eq_iff id id)) in
    let gone : lookup id (remove id kept) ≡ none =
      ground (arith, lookup-remove id id kept, text_eq_iff id id) in
    (
      ap (λ (p : Option Text × Tracker). p.0) resolved,
      rw (resolved, resolve_gone id (remove id kept) gone),
      λ ne. rw resolved (
          ground (
            arith,
            lookup-remove id other kept,
            lookup-put id other method t,
            text_eq_iff id other,
          )),
    )
