-- ===== src/Reminders/Sending/Evolves.antt =====
-- What every step of a delivery leaves: the outcome of any reminder, and the store's own ids.
use omnichannel_booking_assi.Prelude.{
  ℕ, suc, ◌+◌, ◌≡◌, String, true, none, some, List, [], ◌∷◌, ◌++◌, arith,
}
use omnichannel_booking_assi.Domain.Reminder.{Reminder, is_final}
use omnichannel_booking_assi.Memory.Reminders.Steps.{Call, apply, run, at_id}
use omnichannel_booking_assi.Memory.Reminders.Lease.{final_absorbs}
use omnichannel_booking_assi.Memory.Reminders.Own.{IsOwn, apply-IsOwn}
use omnichannel_booking_assi.Reminders.Service.{World, Sending}
use omnichannel_booking_assi.Reminders.Sending.Keeps.{Keeps}

-- How many messages were accepted: the sender returned no error.
unfoldable pub handed : List Sending → ℕ
handed [] = 0
handed (x ∷ xs) = let rest = handed xs in elim x.outcome [ none ↦ suc rest | some e ↦ rest ]

pub handed-append :
    (xs : List Sending) (x : Sending) → handed (xs ++ x ∷ []) ≡ handed (x ∷ []) + handed xs
unfolding handed
handed-append [] x = ground arith
handed-append (y ∷ ys) x = ground (arith, handed-append ys x)

pub record Evolves (w w' : World) : Type 0 where
  pub finals :
      (id : String) (r : Reminder)
      → is_final r.status ≡ true
      → at_id w.store id ≡ some r
      → at_id w'.store id ≡ some r
  pub own : (id : String) → IsOwn id w.store → IsOwn id w'.store

pub Evolves-refl : (w : World) → Evolves w w
Evolves-refl w = record { finals = λ id r f h. h; own = λ id h. h }

pub Evolves-trans : (u v w : World) → Evolves u v → Evolves v w → Evolves u w
Evolves-trans u v w h k = record {
  finals = λ id r f e. k.finals id r f (h.finals id r f e);
  own = λ id e. k.own id (h.own id e);
}

pub Keeps-Evolves : (w w' : World) → Keeps w w' → Evolves w w'
Keeps-Evolves w w' k = record { finals = λ id r f h. k.stored id r h; own = k.own }

-- A call of the reminder store, whatever becomes of the rest of the world.
pub call-Evolves : (w : World) (c : Call) → Evolves w (record w { store = apply w.store c })
unfolding run
call-Evolves w c = record {
  finals = λ id r f h. final_absorbs w.store id r (c ∷ []) h f;
  own = λ id. apply-IsOwn id w.store c;
}
