-- ===== src/Tests/Deliveries.antt =====
-- Tests of the record of handled deliveries.
use omnichannel_booking_assi.Prelude.{
  ◌≡◌, refl, true, false, none, List, [], ◌∷◌, arith, eq_false→ne,
}
use omnichannel_booking_assi.Prelude.Dict.{lookup, IsMap}
use omnichannel_booking_assi.Domain.Errors.{ok, err, delivery_busy}
use omnichannel_booking_assi.Memory.Store.{Store}
use omnichannel_booking_assi.Memory.Deliveries.{claim, complete, release}
use omnichannel_booking_assi.Memory.Deliveries.Guard.{
  Call, claim_call, complete_call, release_call, run, AllForeign,
}
use omnichannel_booking_assi.Memory.Deliveries.Exclusive.{
  lease, receipt, claim_exclusive, complete_once, release_frees,
}
use omnichannel_booking_assi.Tests.Samples.{empty_store}

-- Another worker claims the delivery twice, and tries to complete and to release it.
abbrev theirs : List Call
theirs =
    claim_call "k" "b" 2
    ∷ complete_call "k" "b" 3 4
    ∷ release_call "k" "b"
    ∷ claim_call "k" "b" 5
    ∷ []

granted : (claim empty_store "k" "a" 1).1 ≡ ok true
unfolding claim lookup
granted = refl

theirs-AllForeign : AllForeign "k" (lease empty_store "a" 1) theirs
theirs-AllForeign = (
  λ _. omega arith,
  (
    (λ _. eq_false→ne "b" "a" refl, omega arith),
    (λ _. eq_false→ne "b" "a" refl, (λ _. omega arith, tt)),
  ),
)

claim_exclusive_example :
    let t = run (claim empty_store "k" "a" 1).0 theirs in
    (claim t "k" "c" 6 ≡ (t, err delivery_busy)) × ((complete t "k" "a" 7 8).1 ≡ none)
claim_exclusive_example =
    claim_exclusive empty_store "k" "a" 1 theirs "c" 6 7 8 tt granted theirs-AllForeign
      (omega arith)

abbrev held : Store
held = record empty_store { processed = ("k", lease empty_store "a" 1) ∷ [] }

held-IsMap : IsMap held.processed
unfolding lookup
held-IsMap = (refl, tt)

completed : (complete held "k" "a" 3 4).1 ≡ none
unfolding complete lookup
completed = refl

abbrev retries : List Call
retries = claim_call "k" "b" 5 ∷ complete_call "k" "a" 6 7 ∷ release_call "k" "a" ∷ []

retries-AllForeign : AllForeign "k" (receipt held 3) retries
retries-AllForeign = (λ _. omega arith, ((λ _ e. cc, omega arith), (λ _ e. cc, tt)))

complete_once_example :
    let t = run (complete held "k" "a" 3 4).0 retries in claim t "k" "c" 8 ≡ (t, ok false)
complete_once_example =
    complete_once held "k" "a" 3 4 retries "c" 8 held-IsMap (omega arith) (omega arith) completed
      retries-AllForeign (omega arith)

release_frees_example :
    (claim (release (run (claim empty_store "k" "a" 1).0 theirs) "k" "a") "k" "c" 3).1 ≡ ok true
release_frees_example =
    release_frees empty_store "k" "a" 1 theirs "c" 3 tt granted theirs-AllForeign
