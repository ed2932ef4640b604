-- ===== src/Lib.antt =====
-- Verification library of the omnichannel booking assistant.
--
-- The program receives customers' messages from several channels (cmd/gateway and the adapters under
-- internal/adapters/messaging), lets an assistant answer or a colleague take over
-- (internal/application/assistant), books appointments with the studio's scheduling system
-- (internal/adapters/altegio), and reminds customers of them (internal/application/reminders and
-- internal/application/notifications). What all parts share is the domain (internal/domain) and the
-- repository (internal/adapters/persistence).
--
-- What models what:
--   Prelude           numbers, lists, maps, texts and times as the program uses them
--   Domain            internal/domain: messages and their keys (Messaging, Envelope, Outgoing), customers
--                     and phone numbers (Customer, Phone), appointments, drafts and changes (Booking),
--                     conversations and who answers in them (Conversation), reminders (Reminder), and the
--                     sentinel errors (Errors)
--   Memory            internal/adapters/persistence/memory: store.go, external_reply.go,
--                     profiles.go, staffinbox.go and notifications.go. Store is the state, and each
--                     other module has one group of methods: Reminders, Customers, Conversations, Transcript, Bookings,
--                     Deliveries (Claim, Complete, Release), Staff, Profiles (LinkVerifiedIdentity),
--                     Inbox and Pages (the staff inbox), Notifications (notifications.go)
--   Reminders         internal/application/reminders/service.go: Wake (the time that scheduleWake asks for),
--                     Plan (Plan and Reconcile), Current (currentBooking), Deliver (Deliver); Language
--                     is ParseLanguage of internal/application/appointmentmessage
--   Notifications     internal/application/notifications: routing.go (Routing), the stored types (Entry), calls
--                     as processes (Process), the shared parts and Ingest (Service), Deliver (Prepare,
--                     Recipients, Attempts, Deliver), consents, preferences.go and direct_echo.go
--                     (Contacts), receipts.go (Receipts), sms_receipts.go (Sms), Reconcile,
--                     unrouted_recovery.go and web_reminder.go (Reconcile), health.go (Health), all calls
--                     and their interleavings (Requests), and the proof that a route is used once (Once)
--   Cabinet           internal/application/cabinet/identity.go: the proof that a customer owns a number
--   Assistant         internal/application/assistant/relay.go, and of the files beside it the lock of a
--                     conversation, Resume and checkExternalReply: Lock, Staff (RelayStaffReply),
--                     Commands
--   Tests             the theorems at concrete inputs, and runs of the model
--
-- A colleague's reply runs on the methods of Memory too. Assistant.Lock.Env has the collaborators of one
-- call, and what other calls do to the store while it waits for the lock of the conversation or for the
-- provider; the wait ends when the call's time is up.
--
-- The reminder service runs on the methods of Memory, as the gateway runs it without a database. What it
-- has from outside is a record, Reminders.Service.Env, with the answers of the collaborators in one
-- call: the senders of the channels, the task queue, the reader of the scheduling system, the clock (its
-- n-th reading), new identifiers, the SHA-256 digest, the RFC 3339 format, the language resolver, and
-- the renderer of the message (internal/application/appointmentmessage), of which only the text and
-- the links matter here. A World is the store, the messages handed to senders with the senders' answers,
-- and the tasks that the queue accepted. A message counts as accepted if its sender returned no error;
-- after an error (a timeout, say) the provider may have it all the same, and the code tries again. The
-- phone library is an argument of Domain.Phone.normalize_phone.
--
-- A call of the notification service is a process: a tree of atomic steps, each of which reads or
-- changes a world (the repository's rows, the clock, the number of identifiers made, and the calls of the
-- collaborators). A transaction is one step, as is a reading of the clock or a call of a collaborator, so
-- that the steps of any calls can be interleaved, and a call can stop after any of its steps. What it has
-- from outside is the record Notifications.Service.Env, whose functions may answer by the whole world, and
-- so differently at any two times; its repository may fail in any step, and has then written nothing.
--
-- How the code is translated:
--   * A time is the number of nanoseconds since Go's zero time, and a duration an integer of
--     nanoseconds. A time does not go below the zero time, and Sub does not saturate.
--   * A method of a store takes the store and returns the new one; the mutex makes each method one
--     step. A result (T, error) is a Result; a method with no result but an error gives an Option.
--     Errors keep their sentinel, and what fmt.Errorf puts around it is kept as a short text.
--   * A string type with constants is a data type with the constants and any other text, or, where
--     the text itself is used (the provider), a string.
--   * A map is a list of entries with no key twice, or a function where it is only read. Where Go
--     leaves the order of a map's entries open, the model has that of the list. The order of equal
--     elements, which slices.SortFunc leaves open, is that of an insertion sort.
--   * The counter of takeovers, an int64, is its bit pattern, below 2 ^ 64, and wraps.
--   * The nil slice and the empty slice are one list.
--   * The loop of scheduleWake runs on fuel: now / 29 days + 1 rounds, after each of which the time is
--     29 days later, so that it has passed now when the fuel is used up.
--   * Events of different workers are sequences of calls, in any order.
--
-- Not modelled: the assistant's turn, its tools and its notices to the staff, the adapters of the
-- channels, of the scheduling system, of the language model and of Firestore, the web server, and the
-- configuration.
pub mod Prelude
pub mod Domain
pub mod Memory
pub mod Reminders
pub mod Notifications
pub mod Cabinet
pub mod Assistant
pub mod Tests
