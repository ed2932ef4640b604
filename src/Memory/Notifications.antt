-- ===== src/Memory/Notifications.antt =====
-- internal/adapters/persistence/memory/notifications.go. No other method reads the map of the entries,
-- so it is the whole state here. An entry that is encoded and decoded is the entry.
pub mod Rows
use omnichannel_booking_assi.Prelude.{
  String, Bool, not, ◌&&◌, ◌||◌, none, some, List, [], ◌∷◌, ◌==◌, filter, length, take, ltb,
  if◌then◌else◌,
}
use omnichannel_booking_assi.Prelude.Dict.{Dict, lookup, insert, values}
use omnichannel_booking_assi.Prelude.Time.{before}
use omnichannel_booking_assi.Domain.Errors.{Result, ok, err}
use omnichannel_booking_assi.Notifications.Entry.{Entry, empty_entry}

abbrev pub Rows : Type 0
Rows = Dict Entry

-- `GetNotification`: a missing key has the zero value.
unfoldable pub get_notification : String → Rows → Entry
get_notification key rows = elim (lookup key rows) [ none ↦ empty_entry | some entry ↦ entry ]

-- The first loop of `TransactNotifications`: the copies of the entries.
unfoldable pub read_rows : List String → Rows → Rows
unfolding get_notification
read_rows [] entries = []
read_rows (key ∷ keys) entries = insert key (get_notification key entries) (read_rows keys entries)

-- The second loop: the copies are stored.
unfoldable pub write_rows : List String → Rows → Rows → Rows
unfolding get_notification
write_rows [] rows entries = entries
write_rows (key ∷ keys) rows entries =
    write_rows keys rows (insert key (get_notification key rows) entries)

-- `TransactNotifications`; the function returns the rows that it leaves, and what it assigned to the
-- variables around it.
unfoldable pub transact_notifications :
    {A : Type 0} → List String → (Rows → Result (A × Rows)) → Rows → Rows × Result A
unfolding read_rows write_rows
transact_notifications keys fn entries = elim (fn (read_rows keys entries)) [
  | err e ↦ (entries, err e)
  | ok (a, rows) ↦ (write_rows keys rows entries, ok a)
]

abbrev pub is_pending : Entry → Bool
is_pending entry = not (not (entry.kind == "event") || entry.state == "done")

-- `PendingNotifications`
unfoldable pub pending_notifications : Rows → List Entry
pending_notifications entries = filter is_pending (values entries)

abbrev pub is_sms_outcome : String → Bool
is_sms_outcome outcome =
    outcome == "accepted_sms" || outcome == "uncertain_sms" || outcome == "sms_alert_retryable"

-- `sort.Slice`, by the time of the last update.
unfoldable pub insert_oldest : Entry → List Entry → List Entry
insert_oldest row [] = row ∷ []
insert_oldest row (first ∷ rest) =
    if before first.updated_at row.updated_at
    then first ∷ insert_oldest row rest
    else row ∷ first ∷ rest

unfoldable pub oldest_first : List Entry → List Entry
unfolding insert_oldest
oldest_first [] = []
oldest_first (row ∷ rows) = insert_oldest row (oldest_first rows)

-- `PendingSMSNotifications`
unfoldable pub pending_sms_notifications : Rows → List Entry
unfolding oldest_first
pending_sms_notifications entries =
    let rows =
      oldest_first (
        filter (λ entry. entry.kind == "event" && is_sms_outcome entry.outcome) (values entries)) in
    if ltb 20 (length rows) then take 20 rows else rows
