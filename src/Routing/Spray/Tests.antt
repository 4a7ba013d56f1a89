-- ===== src/Routing/Spray/Tests.antt =====
-- A bundle of three copies, with two peers.
use dtn.Prelude.{ℕ, ◌+◌, ◌≡◌, refl, [], ◌∷◌, none, some, if◌then◌else◌, arith}
use dtn.Bpv7.Endpoint.{EndpointId, ipn_endpoint, eid_eq}
use dtn.Routing.Spray.{
  SprayMetaData, known, remove_first, give_copy, select_senders, sender_for_bundle, report_failure,
}
use dtn.Routing.Spray.Copies.{
  created, asked, failed, IsShared, Sprays-IsShared, copies, report_failure-copies,
}
use dtn.Routing.Spray.Halves.{holding, retry, retry-loses}

abbrev peer : ℕ → EndpointId
peer n = some (ipn_endpoint (record { node = n; service = 0 }))

abbrev fresh : SprayMetaData
fresh = record { sent = []; remaining_copies = 3 }

abbrev sprayed : SprayMetaData
sprayed = record { sent = peer 1 ∷ peer 2 ∷ []; remaining_copies = 1 }

abbrev returned : SprayMetaData
returned = record { sent = peer 2 ∷ []; remaining_copies = 2 }

chosen_all :
    sender_for_bundle (peer 1 ∷ peer 2 ∷ []) (some fresh) ≡ (peer 1 ∷ peer 2 ∷ [], some sprayed)
unfolding sender_for_bundle select_senders give_copy known eid_eq
chosen_all = refl

one_failed : report_failure (peer 1) (some sprayed) ≡ some returned
unfolding report_failure remove_first eid_eq
one_failed = refl

Sprays-IsShared_example : IsShared 3 returned (peer 2 ∷ [])
Sprays-IsShared_example = Sprays-IsShared 3 returned (peer 2 ∷ []) (omega arith) (omega arith) (
    failed (peer 1) sprayed returned [] (peer 2 ∷ [])
      (asked (peer 1 ∷ peer 2 ∷ []) fresh [] (peer 1 ∷ peer 2 ∷ []) sprayed created chosen_all)
      one_failed)

report_failure-copies_example :
    copies (report_failure (peer 3) (some sprayed))
    ≡ (if known (peer 3) sprayed.sent then copies (some sprayed) else copies (some sprayed) + 1)
report_failure-copies_example = report_failure-copies (peer 3) sprayed (omega arith)

retry-loses_example :
    retry (peer 1) (record { entry = some fresh; block_copies = none }) ≡ holding (peer 1 ∷ []) 1 1
unfolding known
retry-loses_example = retry-loses (peer 1) fresh none (omega arith) refl
