-- ===== src/Memory/Deliveries/Guard.antt =====
-- An entry of `processed` shuts other workers out until it expires, whatever they do meanwhile.
use omnichannel_booking_assi.Prelude.{
  ◌<◌, ◌≡◌, ◌≢◌, inl, inr, String, some, List, [], ◌∷◌, arith, eq_iff, str_cases, ◌∙◌,
}
use omnichannel_booking_assi.Prelude.Dict.{
  lookup, insert, IsMap, lookup-insert_ne, lookup-delete, lookup-retain, insert-IsMap, delete-IsMap,
  retain-IsMap,
}
use omnichannel_booking_assi.Prelude.Time.{Time, add, after}
use omnichannel_booking_assi.Memory.Store.{Store, ProcessedEntry}
use omnichannel_booking_assi.Memory.Deliveries.{claim, complete, release, prune_processed}

-- A call of a method by some worker; `complete` has the clock's reading last.
pub data Call : Type 0 where
  claim_call : String → String → Time → Call
  complete_call : String → String → Time → Time → Call
  release_call : String → String → Call

unfoldable pub apply : Store → Call → Store
unfolding claim complete release
apply s (claim_call k id at) = (claim s k id at).0
apply s (complete_call k id at now) = (complete s k id at now).0
apply s (release_call k id) = release s k id

unfoldable pub run : Store → List Call → Store
run s [] = s
run s (c ∷ cs) = run (apply s c) cs

-- The store has this entry at the key.
pub record Guarded (key : String) (e : ProcessedEntry) (s : Store) : Type 0 where
  pub entry : lookup key s.processed ≡ some e
  pub unique : IsMap s.processed

-- A call that, at the key, claims before the entry expires and brings another claim id than it holds.
-- Its clock, which a prune reads for all keys, shows a time before the entry expires.
abbrev pub IsForeign : String → ProcessedEntry → Call → Type 0
IsForeign key e (claim_call k id at) = k ≡ key → at < e.expires_at
IsForeign key e (complete_call k id at now) = (k ≡ key → id ≢ e.claim_id) × (now < e.expires_at)
IsForeign key e (release_call k id) = k ≡ key → id ≢ e.claim_id

abbrev pub AllForeign : String → ProcessedEntry → List Call → Type 0
AllForeign key e [] = Unit
AllForeign key e (c ∷ cs) = IsForeign key e c × AllForeign key e cs

module _ (key : String) (e : ProcessedEntry) where
  -- A write at another key.
  insert-Guarded :
      (s : Store) (k : String) (v : ProcessedEntry)
      → k ≢ key
      → Guarded key e s
      → Guarded key e (record s { processed = insert k v s.processed })
  insert-Guarded s k v h g = record {
    entry = lookup-insert_ne k key v s.processed h ∙ g.entry;
    unique = insert-IsMap k v s.processed g.unique;
  }

  -- A prune before the entry expires.
  prune-Guarded :
      (s : Store) (now : Time)
      → now < e.expires_at
      → Guarded key e s
      → Guarded key e (prune_processed s now)
  unfolding prune_processed
  prune-Guarded s now h g =
      let live = λ (x : ProcessedEntry). after x.expires_at now in
      record {
        entry = ground (arith, lookup-retain live key s.processed g.unique);
        unique = retain-IsMap live s.processed g.unique;
      }

  claim-Guarded :
      (s : Store) (k id : String) (at : Time)
      → (k ≡ key → at < e.expires_at)
      → Guarded key e s
      → Guarded key e (claim s k id at).0
  unfolding claim
  claim-Guarded s k id at h g = elim (str_cases k key) [
    | inl same ↦ ground (arith, h same, eq_iff k key)
    | inr other ↦
        let v : ProcessedEntry = record {
          claim_id = id;
          processed_at = 0;
          expires_at = add at s.claim_ttl;
        } in
        ground (arith, insert-Guarded s k v)
  ]

  complete-Guarded :
      (s : Store) (k id : String) (at now : Time)
      → (k ≡ key → id ≢ e.claim_id)
      → now < e.expires_at
      → Guarded key e s
      → Guarded key e (complete s k id at now).0
  unfolding complete
  complete-Guarded s k id at now h b g = elim (str_cases k key) [
    | inl same ↦ ground (arith, h same, eq_iff e.claim_id id, eq_iff k key)
    | inr other ↦
        let v : ProcessedEntry = record {
          claim_id = "";
          processed_at = at;
          expires_at = add at s.processed_ttl;
        } in
        ground (
          arith,
          prune-Guarded (record s { processed = insert k v s.processed }) now b
              (insert-Guarded s k v other g),
        )
  ]

  release-Guarded :
      (s : Store) (k id : String)
      → (k ≡ key → id ≢ e.claim_id)
      → Guarded key e s
      → Guarded key e (release s k id)
  unfolding release
  release-Guarded s k id h g = elim (str_cases k key) [
    | inl same ↦ ground (arith, h same, eq_iff e.claim_id id)
    | inr other ↦
        ground (
          arith,
          eq_iff k key,
          lookup-delete k key s.processed,
          delete-IsMap k s.processed g.unique,
        )
  ]

  apply-Guarded :
      (s : Store) (c : Call) → IsForeign key e c → Guarded key e s → Guarded key e (apply s c)
  unfolding apply
  apply-Guarded s (claim_call k id at) h g = claim-Guarded s k id at h g
  apply-Guarded s (complete_call k id at now) h g = complete-Guarded s k id at now h.0 h.1 g
  apply-Guarded s (release_call k id) h g = release-Guarded s k id h g

  pub run-Guarded :
      (s : Store) (cs : List Call)
      → AllForeign key e cs
      → Guarded key e s
      → Guarded key e (run s cs)
  unfolding run
  run-Guarded s [] h g = g
  run-Guarded s (c ∷ cs) h g = run-Guarded (apply s c) cs h.1 (apply-Guarded s c h.0 g)
