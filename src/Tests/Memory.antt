-- ===== src/Tests/Memory.antt =====
-- Tests of the memory repository: conversations, transcripts, appointments.
use mathlib.Core.List.{Perm, Mem, flat_map}
use omnichannel_booking_assi.Prelude.{
  ◌+◌, ◌%◌, ◌^◌, ◌<◌, ◌≡◌, ◌↔◌, refl, ◌⊎◌, String, false, ◌&&◌, none, some, List, [], ◌∷◌, arith,
  ◌==◌, if◌then◌else◌,
}
use omnichannel_booking_assi.Prelude.Dict.{lookup, insert}
use omnichannel_booking_assi.Domain.Errors.{ok, external_reply_conflict}
use omnichannel_booking_assi.Domain.Booking.{Booking}
use omnichannel_booking_assi.Domain.Conversation.{Conversation, Message, key}
use omnichannel_booking_assi.Memory.Store.{Store}
use omnichannel_booking_assi.Memory.Conversations.{
  find_or_open, save, find_by_id, record_external_reply, target,
}
use omnichannel_booking_assi.Memory.Conversations.Keyed.{
  Call, open_call, reply_call, apply, run, IsKeyed, run-IsKeyed,
}
use omnichannel_booking_assi.Memory.Conversations.Revisions.{
  takeovers, HasRevision, run-HasRevision, save-takeovers,
}
use omnichannel_booking_assi.Memory.Conversations.Index.{
  find_by_id-save, record_external_reply_replayed,
}
use omnichannel_booking_assi.Memory.Transcript.{append}
use omnichannel_booking_assi.Memory.Transcript.Append.{Appended, append_lem}
use omnichannel_booking_assi.Memory.Bookings.{own_bookings, save_booking, find_in, list_bookings}
use omnichannel_booking_assi.Memory.Bookings.Upsert.{IsDistinct, save_booking_lem}
use omnichannel_booking_assi.Memory.Bookings.Sorted.{
  IsSorted, IsOwn, bookings_of, linked_profiles, list_bookings_lem,
}
use omnichannel_booking_assi.Tests.Samples.{booked, empty_store, thread, visit, reply_message}

empty-IsKeyed : IsKeyed empty_store
unfolding lookup
empty-IsKeyed k c h = cc

abbrev opened : Store
opened = (find_or_open empty_store thread).0

opened-IsKeyed : IsKeyed opened
unfolding run apply
opened-IsKeyed = run-IsKeyed empty_store (open_call thread ∷ []) empty-IsKeyed

opened-HasRevision : HasRevision opened (key thread) 0
unfolding find_or_open lookup insert key
opened-HasRevision = (thread, refl, refl)

-- A colleague answers on the phone, and the echo comes twice.
abbrev echoes : List Call
echoes = reply_call thread reply_message 5 6 ∷ reply_call thread reply_message 5 7 ∷ []

echoes_once : takeovers (key thread) opened echoes ≡ 1
unfolding takeovers find_or_open record_external_reply key
    omnichannel_booking_assi.Memory.Conversations.is_replay lookup
    omnichannel_booking_assi.Domain.Conversation.observe_external_reply insert apply
echoes_once = refl

run-HasRevision_example :
    HasRevision
      (run opened echoes)
      (key thread)
      ((0 + takeovers (key thread) opened echoes) % 2 ^ 64)
run-HasRevision_example =
    run-HasRevision (key thread) 0 opened echoes (omega arith) opened-IsKeyed opened-HasRevision

save-takeovers_example :
    (takeovers (key thread) opened echoes ≡ 0) × ((save (run opened echoes) thread).1 ≡ none)
    ⊎ (0 < takeovers (key thread) opened echoes)
      × (save (run opened echoes) thread ≡ (run opened echoes, some external_reply_conflict))
save-takeovers_example =
    save-takeovers opened echoes thread opened-IsKeyed (omega arith) opened-HasRevision
      (rw echoes_once (omega arith))

saved : (save empty_store thread).1 ≡ none
unfolding save lookup
saved = refl

find_by_id-save_example :
    (find_by_id (save empty_store thread).0 "c1" ≡ ok thread)
    × (find_or_open (save empty_store thread).0 thread ≡ ((save empty_store thread).0, thread))
find_by_id-save_example = find_by_id-save empty_store thread thread saved refl

record_external_reply_replayed_example :
    let t = (record_external_reply empty_store thread reply_message 5 6).0 in
    record_external_reply t thread reply_message 5 9 ≡ (t, target t thread, false)
record_external_reply_replayed_example =
    record_external_reply_replayed empty_store thread reply_message reply_message 5 6 5 9
      empty-IsKeyed refl refl

append_lem_example :
    ((id : String) → Appended (append empty_store reply_message) reply_message id)
    × (append (append (append empty_store reply_message) reply_message) reply_message
        ≡ append (append empty_store reply_message) reply_message)
append_lem_example = append_lem (append empty_store reply_message) reply_message

abbrev moved_visit : Booking
moved_visit = record visit { starts_at = 2500 }

save_booking_lem_example : find_in (own_bookings (save_booking booked moved_visit) "u1") "x1" ≡ (
    if (moved_visit.customer_id == "u1") && (moved_visit.external_id == "x1")
    then some moved_visit
    else find_in (own_bookings booked "u1") "x1")
save_booking_lem_example = save_booking_lem booked moved_visit "u1" "x1"

booked-IsDistinct : IsDistinct (own_bookings booked "u1")
unfolding own_bookings lookup find_in
booked-IsDistinct = (refl, tt)

list_bookings_lem_example :
    IsSorted (list_bookings booked "u1")
    × ((b : Booking) → Mem b (list_bookings booked "u1") ↔ IsOwn booked "u1" b)
    × Perm
        (list_bookings booked "u1")
        (flat_map (bookings_of booked) ("u1" ∷ linked_profiles booked "u1"))
list_bookings_lem_example = list_bookings_lem booked "u1"
