-- ===== src/Notifications/Contacts/Language.antt =====
-- `ResolveLanguage` (internal/application/notifications/preferences.go): a choice is not replaced by a hint.
use omnichannel_booking_assi.Prelude.{
  ◌≡◌, refl, ap, ◌∙◌, String, Bool, true, false, not, ◌&&◌, ◌||◌, none, [], ◌∷◌, arith, eq_refl,
  is_empty, if◌then◌else◌,
}
use omnichannel_booking_assi.Prelude.Dict.{insert}
use omnichannel_booking_assi.Prelude.Time.{Time}
use omnichannel_booking_assi.Domain.Errors.{Error, Result, ok, err}
use omnichannel_booking_assi.Domain.Phone.{normalize_phone}
use omnichannel_booking_assi.Memory.Notifications.{
  Rows, get_notification, transact_notifications, read_rows,
}
use omnichannel_booking_assi.Memory.Notifications.Rows.{
  committed, transact-committed, get-insert_self, get-read_self, transact-get,
}
use omnichannel_booking_assi.Notifications.Entry.{Entry}
use omnichannel_booking_assi.Notifications.Process.{World, Call, run}
use omnichannel_booking_assi.Notifications.Service.{Env, key, transact, put, keep}
use omnichannel_booking_assi.Notifications.Service.Run.{run-transact, committed_world}
use omnichannel_booking_assi.Notifications.Contacts.{
  resolve_language, resolve_row, with_number, is_language, sets_language, saved_language,
}

abbrev name_of : Env → String → String
name_of env phone = key env "language_phone" phone

abbrev is_hint : String → Bool
is_hint hint = is_empty hint || is_language hint

run-resolve_language :
    (env : Env) (raw_phone phone hint : String) (explicit : Bool) (w : World)
    → normalize_phone env.parse raw_phone ≡ ok phone
    → env.repository_error w ≡ none
    → is_hint hint ≡ true
    → run (resolve_language env raw_phone hint explicit) w ≡ (
      committed_world (name_of env phone ∷ []) (resolve_row (name_of env phone) hint explicit) w,
      (transact_notifications
          (name_of env phone ∷ [])
          (resolve_row (name_of env phone) hint explicit w.clock)
          w.rows).1,
    )
unfolding resolve_language
run-resolve_language env raw_phone phone hint explicit w p q valid =
    let next = λ (number : String).
      if not (is_empty hint) && not (is_language hint)
      then omnichannel_booking_assi.Notifications.Process.fail
          (omnichannel_booking_assi.Domain.Errors.message "unsupported language")
      else transact env (name_of env number ∷ [])
          (resolve_row (name_of env number) hint explicit) in
    let accepted = λ (b : Bool).
      if b
      then omnichannel_booking_assi.Notifications.Process.fail
          (omnichannel_booking_assi.Domain.Errors.message "unsupported language")
      else transact env (name_of env phone ∷ []) (resolve_row (name_of env phone) hint explicit) in
    let test : (not (is_empty hint) && not (is_language hint)) ≡ false = ground (arith, valid) in
    ap (λ r. run (with_number r next) w) p
    ∙ ap (λ b. run (accepted b) w) test
    ∙ run-transact env _ _ w q

-- The row that an explicit choice leaves.
language_after :
    (name lang : String) (at : Time) (rows : Rows)
    → is_empty lang ≡ false
    → (get_notification name
        (transact_notifications
          (name ∷ [])
          (resolve_row name lang true at)
          rows).0).contact.language
      ≡ lang
unfolding resolve_row
language_after name lang at rows h =
    let row = get_notification name (read_rows (name ∷ []) rows) in
    let e = record row {
      kind = "language";
      contact = record row.contact { language = lang };
      updated_at = at;
      state = "explicit";
    } in
    let chosen = insert name e (read_rows (name ∷ []) rows) in
    let set : sets_language row lang true ≡ true = ground (arith, h) in
    ap (λ (e : Entry). e.contact.language)
      (transact-get name (name ∷ []) (resolve_row name lang true at) rows lang chosen
          (ground (arith, eq_refl name))
          (ap
            (λ b.
              if b
              then put lang name e (read_rows (name ∷ []) rows)
              else keep (saved_language row) (read_rows (name ∷ []) rows))
            set)
        ∙ get-insert_self name e (read_rows (name ∷ []) rows))

-- The answer to a hint, once a language is saved.
hint_answer :
    (name lang hint : String) (at : Time) (rows : Rows)
    → is_empty lang ≡ false
    → (get_notification name rows).contact.language ≡ lang
    → (transact_notifications (name ∷ []) (resolve_row name hint false at) rows).1 ≡ ok lang
unfolding resolve_row
hint_answer name lang hint at rows h saved =
    let copies = read_rows (name ∷ []) rows in
    let row = get_notification name copies in
    let language = ap (λ (e : Entry). e.contact.language) (get-read_self name rows) ∙ saved in
    let full : is_empty row.contact.language ≡ false = ap is_empty language ∙ h in
    let set : sets_language row hint false ≡ false = ground (arith, full) in
    ap (λ z. z.1) (transact-committed (name ∷ []) (resolve_row name hint false at) rows)
    ∙ ap
        (λ b.
          (committed (name ∷ []) rows (
            if b
            then put hint name
                (record row {
                  kind = "language";
                  contact = record row.contact { language = hint };
                  updated_at = at;
                  state = "inferred";
                })
                copies
            else keep (saved_language row) copies)).1)
        set
    ∙ ap ok (ap (λ b. if b then "ru" else row.contact.language) full ∙ language)

-- Once a customer has chosen a language, a later hint of a device is answered with the choice,
-- whatever the time is by then, and whatever hint it is that the service takes (none, or one of the
-- three languages). The conditions are that the number is valid, that the choice is one of the
-- three languages, and that the repository does not fail.
pub resolve_language_kept :
    (env : Env) (w : World) (raw_phone phone lang hint : String) (later : Time)
    → normalize_phone env.parse raw_phone ≡ ok phone
    → is_language lang ≡ true
    → is_hint hint ≡ true
    → ((v : World) → env.repository_error v ≡ none)
    → (run
        (resolve_language env raw_phone hint false)
        (record (run (resolve_language env raw_phone lang true) w).0 { clock = later })).1
      ≡ ok lang
resolve_language_kept env w raw_phone phone lang hint later p valid valid_hint works =
    let name = name_of env phone in
    let full = language-not-empty lang valid in
    let chosen =
      run-resolve_language env raw_phone phone lang true w p (works w) (ground (arith, valid)) in
    let after = λ (v : World).
      (run (resolve_language env raw_phone hint false) (record v { clock = later })).1 in
    let v = record (committed_world (name ∷ []) (resolve_row name lang true) w) { clock = later } in
    ap (λ z. after z.0) chosen
    ∙ ap (λ z. z.1) (run-resolve_language env raw_phone phone hint false v p (works v) valid_hint)
    ∙ hint_answer name lang hint later v.rows full (language_after name lang w.clock w.rows full)
  where
    language-not-empty : (s : String) → is_language s ≡ true → is_empty s ≡ false
    language-not-empty String.[] h = cc
    language-not-empty (String.◌∷◌ c s) h = refl
