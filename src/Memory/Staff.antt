-- ===== src/Memory/Staff.antt =====
-- internal/adapters/persistence/memory/store.go: `LinkStaffThread`, `ConversationForStaffThread`.
use omnichannel_booking_assi.Prelude.{String}
use omnichannel_booking_assi.Prelude.Dict.{lookup, insert}
use omnichannel_booking_assi.Memory.Store.{Store, get_text}

unfoldable pub link_staff_thread : Store → String → String → Store
link_staff_thread s staff_message_id conversation_id = record s {
  staff_threads = insert staff_message_id conversation_id s.staff_threads;
}

unfoldable pub conversation_for_staff_thread : Store → String → String
conversation_for_staff_thread s staff_message_id =
    get_text (lookup staff_message_id s.staff_threads)
