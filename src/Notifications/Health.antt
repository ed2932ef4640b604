-- ===== src/Notifications/Health.antt =====
-- internal/application/notifications/health.go: the guard that shares a channel's restrictions.
pub mod Restrict
use omnichannel_booking_assi.Prelude.{
  ℕ, ◌+◌, ◌*◌, String, Bool, true, false, not, ◌&&◌, ◌||◌, Option, none, some, List, [], ◌∷◌, ◌==◌,
  is_empty, if◌then◌else◌,
}
use omnichannel_booking_assi.Prelude.Dict.{Dict, insert}
use omnichannel_booking_assi.Prelude.Time.{Time, after, minute}
use omnichannel_booking_assi.Domain.Errors.{Error, Result, ok, err, wrapped}
use omnichannel_booking_assi.Memory.Notifications.{Rows, get_notification}
use omnichannel_booking_assi.Memory.Inbox.{text_less}
use omnichannel_booking_assi.Notifications.Entry.{Entry, ChannelHealth, allows, empty_health}
use omnichannel_booking_assi.Notifications.Process.{
  World, Process, Call, done, step, ◌>>=◌, ◌>>◌, nothing, return, attempt,
}
use omnichannel_booking_assi.Notifications.Service.{
  Env, HealthGuard, Change, key, now, fresh_id, get, transact, keep, put,
}

-- `g.key()`
unfoldable pub health_key : Env → HealthGuard → String
unfolding key
health_key env guard =
    key env "channel_health" (if is_empty guard.provider then "whatsapp" else guard.provider)

-- `sort.Strings`
unfoldable pub insert_text : String → List String → List String
insert_text s [] = s ∷ []
insert_text s (t ∷ ts) = if text_less t s then t ∷ insert_text s ts else s ∷ t ∷ ts

-- The keys of the templates that are not approved, in order.
unfoldable pub paused_templates : Dict Bool → List String
unfolding insert_text text_less
paused_templates [] = []
paused_templates ((name, approved) ∷ templates) =
    let rest = paused_templates templates in if approved then rest else insert_text name rest

abbrev pub same_flag : Bool → Bool → Bool
same_flag true b = b
same_flag false b = not b

unfoldable pub same_texts : List String → List String → Bool
same_texts [] [] = true
same_texts (s ∷ ss) (t ∷ ts) = s == t && same_texts ss ts
same_texts _ _ = false

-- Whether `healthFingerprint` is the same: the JSON text is, if the three fields are.
unfoldable pub same_health : ChannelHealth → ChannelHealth → Bool
unfolding paused_templates same_texts
same_health a b =
    same_flag a.blocked b.blocked
    && same_flag a.proactive_paused b.proactive_paused
    && same_texts (paused_templates a.templates) (paused_templates b.templates)

unfoldable pub has_unapproved : Dict Bool → Bool
has_unapproved [] = false
has_unapproved ((_, approved) ∷ templates) = not approved || has_unapproved templates

-- `restrictedHealth`
unfoldable pub restricted_health : ChannelHealth → Bool
unfolding has_unapproved
restricted_health h = h.blocked || h.proactive_paused || has_unapproved h.templates

abbrev pub probing : Entry → String → Time → Entry
probing row owner at = record row {
  kind = "channel_health";
  lease_owner = owner;
  lease_until = at + minute;
}

-- The first transaction of `Refresh`: whether the probe is this call's.
unfoldable pub claim_probe : String → String → Time → Change Bool
unfolding get_notification
claim_probe name owner at _ rows =
    let row = get_notification name rows in
    if row.operator_paused || after row.lease_until at || after row.next_lookup_at at
    then keep false rows
    else put true name (probing row owner at) rows

-- What is known now: the templates of before, if the probe does not tell them.
abbrev pub merged_health : ChannelHealth → ChannelHealth → Time → ChannelHealth
merged_health previous health at = record health {
  templates = if health.templates_known then health.templates else previous.templates;
  templates_known = health.templates_known || previous.templates_known;
  checked_at = at;
}

abbrev pub needs_alert : ChannelHealth → ChannelHealth → Bool
needs_alert previous health =
    not (same_health previous health) && (previous.known || restricted_health health)

abbrev pub unleased : Entry → Entry
unleased row = record row { lease_owner = ""; lease_until = 0 }

abbrev pub next_probe : Entry → Time → Entry
next_probe row at = record (unleased row) { next_lookup_at = at + 5 * minute }

abbrev pub with_health : Entry → ChannelHealth → Time → Entry
with_health row health at = record (next_probe row at) { health = health; updated_at = at }

-- The alert that is due, after a probe that found `health`.
abbrev pub found :
    String → Time → Entry → ChannelHealth → Rows → Result (Option ChannelHealth × Rows)
found name at row health rows =
    let merged = merged_health row.health health at in
    put (if needs_alert row.health merged then some merged else none) name
      (with_health row merged at) rows

-- The second transaction of `Refresh`.
unfoldable pub store_probe :
    String → String → Time → Result ChannelHealth → Change (Option ChannelHealth)
unfolding get_notification same_health restricted_health
store_probe name owner at answer _ rows =
    let row = get_notification name rows in
    if not (row.lease_owner == owner)
    then keep none rows
    else if row.operator_paused
    then put none name (unleased row) rows
    else elim answer [
      | err e ↦ put none name (next_probe row at) rows
      | ok health ↦
          if health.known
          then found name at row health rows
          else put none name (next_probe row at) rows
    ]

abbrev pub probe : HealthGuard → Call ChannelHealth
probe guard = step (λ w. w) (λ w. done (guard.read w))

abbrev pub alerted : Option Error → Call (Unit {0})
alerted none = nothing
alerted (some e) = done (err (wrapped "notify channel health change" e))

abbrev pub send_alert : HealthGuard → Option ChannelHealth → Call (Unit {0})
send_alert guard none = nothing
send_alert guard (some health) = elim guard.alert [
  | none ↦ nothing
  | some alert ↦ step (λ w. w) (λ w. alerted (alert w health))
]

abbrev pub error_of : {A : Type 0} → Result A → Result (Unit {0})
error_of (ok _) = ok tt
error_of (err e) = err e

abbrev pub probe_claimed : Env → HealthGuard → String → Time → Bool → Call (Unit {0})
probe_claimed env guard owner at false = nothing
probe_claimed env guard owner at true = do
  answer ← attempt (probe guard)
  alert ←
      transact env (health_key env guard ∷ []) (store_probe (health_key env guard) owner at answer)
  send_alert guard alert
  done (error_of answer)

-- `Refresh`
unfoldable pub refresh : Env → HealthGuard → Call (Unit {0})
unfolding claim_probe store_probe health_key
refresh env guard = do
  owner ← fresh_id env
  at ← now
  claimed ← transact env (health_key env guard ∷ []) (claim_probe (health_key env guard) owner at)
  probe_claimed env guard owner at claimed

abbrev pub allowed_by : Entry → String → String → Bool
allowed_by row template language = not row.operator_paused && allows row.health template language

abbrev pub refreshed_allows : Env → HealthGuard → String → String → Call Bool
refreshed_allows env guard template language = do
  ignored ← attempt (refresh env guard)
  row ← get env (health_key env guard)
  return (allowed_by row template language)

-- `HealthGuard.Allows`
unfoldable pub guard_allows : Env → HealthGuard → String → String → Call Bool
unfolding refresh allows health_key
guard_allows env guard template language = do
  row ← get env (health_key env guard)
  at ← now
  if row.operator_paused
      then return false
      else if after row.next_lookup_at at
      then return (allowed_by row template language)
      else refreshed_allows env guard template language

abbrev pub blocked_row : Entry → Time → Entry
blocked_row row at = record row {
  kind = "channel_health";
  lease_owner = "";
  lease_until = 0;
  health = record row.health { known = true; blocked = true; checked_at = at };
  updated_at = at;
  next_lookup_at = at + minute;
}

abbrev pub block_row : String → Change (Unit {0})
block_row name at rows = put tt name (blocked_row (get_notification name rows) at) rows

-- `Block`
unfoldable pub block : Env → HealthGuard → Call (Unit {0})
unfolding get_notification health_key
block env guard = transact env (health_key env guard ∷ []) (block_row (health_key env guard))
