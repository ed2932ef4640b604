-- ===== src/Memory/Deliveries.antt =====
-- internal/adapters/persistence/memory/store.go: `Claim`, `Complete`, `Release`, `pruneProcessed`,
-- which let one worker at a time handle an inbound delivery, and one at most complete it.
pub mod Guard
pub mod Exclusive
use omnichannel_booking_assi.Prelude.{
  String, Bool, true, false, not, ◌&&◌, Option, none, some, is_empty, ◌==◌, if◌then◌else◌,
}
use omnichannel_booking_assi.Prelude.Dict.{lookup, insert, delete, retain}
use omnichannel_booking_assi.Prelude.Time.{Time, is_zero, after, add}
use omnichannel_booking_assi.Domain.Errors.{Error, Result, ok, err, delivery_busy, message}
use omnichannel_booking_assi.Memory.Store.{Store, ProcessedEntry}

unfoldable pub claim : Store → String → String → Time → Store × Result Bool
claim s key claim_id at =
    let granted = record s {
      processed =
          insert key
            (record { claim_id = claim_id; processed_at = 0; expires_at = add at s.claim_ttl })
            s.processed;
    } in
    elim (lookup key s.processed) [
      | none ↦ (granted, ok true)
      | some entry ↦
          if after entry.expires_at at
          then (s, if is_zero entry.processed_at then err delivery_busy else ok false)
          else (granted, ok true)
    ]

unfoldable pub prune_processed : Store → Time → Store
prune_processed s now = record s {
  processed = retain (λ entry. after entry.expires_at now) s.processed;
}

-- `now` is the clock that `pruneProcessed` reads.
unfoldable pub complete : Store → String → String → Time → Time → Store × Option Error
unfolding prune_processed
complete s key claim_id at now =
    let done = record s {
      processed =
          insert key
            (record { claim_id = ""; processed_at = at; expires_at = add at s.processed_ttl })
            s.processed;
    } in
    let not_owned : Store × Option Error =
      (s, some (message "complete delivery: claim is not owned by this request")) in
    elim (lookup key s.processed) [
      | none ↦ not_owned
      | some entry ↦
          if not (entry.claim_id == claim_id) then not_owned else (prune_processed done now, none)
    ]

unfoldable pub release : Store → String → String → Store
release s key claim_id = elim (lookup key s.processed) [
  | none ↦ s
  | some entry ↦
      if entry.claim_id == claim_id && is_zero entry.processed_at
      then record s { processed = delete key s.processed }
      else s
]
