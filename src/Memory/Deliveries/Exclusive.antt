-- ===== src/Memory/Deliveries/Exclusive.antt =====
-- What the methods on `processed` promise: one worker at a time, and one completion.
use omnichannel_booking_assi.Prelude.{
  ◌≤◌, ◌<◌, ◌≡◌, refl, true, false, String, none, List, arith, eq_refl,
}
use omnichannel_booking_assi.Prelude.Dict.{
  lookup, insert, IsMap, lookup-insert_self, lookup-delete, lookup-retain, retain, insert-IsMap,
  retain-IsMap,
}
use omnichannel_booking_assi.Prelude.Time.{Time, add, after}
use omnichannel_booking_assi.Domain.Errors.{ok, err, delivery_busy}
use omnichannel_booking_assi.Memory.Store.{Store, ProcessedEntry}
use omnichannel_booking_assi.Memory.Deliveries.{claim, complete, release, prune_processed}
use omnichannel_booking_assi.Memory.Deliveries.Guard.{Call, run, Guarded, AllForeign, run-Guarded}

-- The entry that a granted claim leaves.
abbrev pub lease : Store → String → Time → ProcessedEntry
lease s id at = record { claim_id = id; processed_at = 0; expires_at = add at s.claim_ttl }

-- The entry that a completion leaves.
abbrev pub receipt : Store → Time → ProcessedEntry
receipt s at = record { claim_id = ""; processed_at = at; expires_at = add at s.processed_ttl }

claim-lease :
    (s : Store) (key id : String) (at : Time)
    → IsMap s.processed
    → (claim s key id at).1 ≡ ok true
    → Guarded key (lease s id at) (claim s key id at).0
unfolding claim
claim-lease s key id at m h = ground (
  arith,
  lookup-insert_self key (lease s id at) s.processed,
  insert-IsMap key (lease s id at) s.processed m,
)

complete-receipt :
    (s : Store) (key id : String) (at now : Time)
    → IsMap s.processed
    → now < add at s.processed_ttl
    → (complete s key id at now).1 ≡ none
    → Guarded key (receipt s at) (complete s key id at now).0
unfolding complete
complete-receipt s key id at now m b h =
    let live = λ (x : ProcessedEntry). after x.expires_at now in
    let done = insert key (receipt s at) s.processed in
    let done_map = insert-IsMap key (receipt s at) s.processed m in
    ground (
      arith,
      lookup-insert_self key (receipt s at) s.processed,
      lookup-retain live key done done_map,
      retain-IsMap live done done_map,
    )

claim_busy :
    (t : Store) (key other : String) (e : ProcessedEntry) (at : Time)
    → Guarded key e t
    → e.processed_at ≡ 0
    → at < e.expires_at
    → claim t key other at ≡ (t, err delivery_busy)
unfolding claim
claim_busy t key other e at g z h = ground arith

-- After a claim was granted, and after any calls by workers that do not hold it and come before it
-- expires: every further claim of the delivery that comes before it expires is told that it is busy
-- and changes nothing, and the holder's completion is accepted.
pub claim_exclusive :
    (s : Store) (key mine : String) (at : Time) (cs : List Call) (other : String)
    (at' done now : Time)
    → IsMap s.processed
    → (claim s key mine at).1 ≡ ok true
    → AllForeign key (lease s mine at) cs
    → at' < add at s.claim_ttl
    → let t = run (claim s key mine at).0 cs in
      (claim t key other at' ≡ (t, err delivery_busy)) × ((complete t key mine done now).1 ≡ none)
unfolding complete
claim_exclusive s key mine at cs other at' done now m h f b =
    let t = run (claim s key mine at).0 cs in
    let g =
      run-Guarded key (lease s mine at) (claim s key mine at).0 cs f
        (claim-lease s key mine at m h) in
    (claim_busy t key other (lease s mine at) at' g refl b, ground (arith, g.entry, eq_refl mine))

-- Once a delivery is completed, and after any calls by workers before its record expires, every
-- claim of it that comes before the record expires is refused as done, and changes nothing: no
-- retry of the provider is handled twice.
pub complete_once :
    (s : Store) (key mine : String) (at now : Time) (cs : List Call) (other : String) (at' : Time)
    → IsMap s.processed
    → 0 < at
    → now < add at s.processed_ttl
    → (complete s key mine at now).1 ≡ none
    → AllForeign key (receipt s at) cs
    → at' < add at s.processed_ttl
    → let t = run (complete s key mine at now).0 cs in claim t key other at' ≡ (t, ok false)
unfolding claim
complete_once s key mine at now cs other at' m p b h f b' =
    let g =
      run-Guarded key (receipt s at) (complete s key mine at now).0 cs f
        (complete-receipt s key mine at now m b h) in
    ground (arith, g.entry)

-- A holder that gives up makes the delivery free at once: after any calls by other workers before
-- the claim expires, its release lets the next claim through, at any time.
pub release_frees :
    (s : Store) (key mine : String) (at : Time) (cs : List Call) (other : String) (at' : Time)
    → IsMap s.processed
    → (claim s key mine at).1 ≡ ok true
    → AllForeign key (lease s mine at) cs
    → (claim (release (run (claim s key mine at).0 cs) key mine) key other at').1 ≡ ok true
unfolding claim release
release_frees s key mine at cs other at' m h f =
    let t = run (claim s key mine at).0 cs in
    let g =
      run-Guarded key (lease s mine at) (claim s key mine at).0 cs f
        (claim-lease s key mine at m h) in
    ground (arith, g.entry, eq_refl mine, eq_refl key, lookup-delete key key t.processed)

-- Pruning is invisible to claims: at or after the time of the prune, a claim has the same result on
-- the pruned store as on the other, and leaves the same entry at its key.
pub claim-prune :
    (s : Store) (now : Time) (key id : String) (at : Time)
    → IsMap s.processed
    → now ≤ at
    → let pruned = claim (prune_processed s now) key id at in
      let kept = claim s key id at in
      (pruned.1 ≡ kept.1) × (lookup key pruned.0.processed ≡ lookup key kept.0.processed)
unfolding claim prune_processed
claim-prune s now key id at m h =
    let live = λ (x : ProcessedEntry). after x.expires_at now in
    ground (
      arith,
      lookup-retain live key s.processed m,
      lookup-insert_self key (lease s id at) s.processed,
      lookup-insert_self key (lease s id at) (retain live s.processed),
    )
