-- ===== src/Domain/Outgoing.antt =====
-- internal/domain/messaging/message.go: the buttons and links of an outgoing message.
pub mod Menu
use omnichannel_booking_assi.Prelude.{
  ℕ, String, Bool, true, false, not, ◌||◌, List, [], ◌∷◌, ◌++◌, length, eqb, is_empty, ◌==◌,
  if◌then◌else◌,
}
use omnichannel_booking_assi.Prelude.Spaces.{trim_space, has_prefix_fold}
use omnichannel_booking_assi.Domain.Messaging.{Choice, Link, Outgoing}

abbrev pub max_choices : ℕ
max_choices = 100

-- Whether a key is in the map of what was seen.
unfoldable pub seen_in : String → List String → Bool
seen_in s [] = false
seen_in s (t ∷ ts) = t == s || seen_in s ts

-- The loop of `WithChoices`, over what was kept so far; the `break` returns it.
unfoldable pub keep_choices : List Choice → List String → List Choice → List Choice
keep_choices [] seen kept = kept
keep_choices (choice ∷ rest) seen kept =
    let label = trim_space choice.label in
    let kept' = kept ++ record { label = label } ∷ [] in
    let skip = keep_choices rest seen kept in
    let take = keep_choices rest (label ∷ seen) kept' in
    if is_empty label || seen_in label seen
    then skip
    else if eqb (length kept') max_choices
    then kept'
    else take

unfoldable pub with_choices : Outgoing → List Choice → Outgoing
with_choices o choices = record o { choices = keep_choices choices [] [] }

unfoldable pub keep_links : List Link → List String → List Link → List Link
keep_links [] seen kept = kept
keep_links (link ∷ rest) seen kept =
    let label = trim_space link.label in
    let raw_url = trim_space link.url in
    let kept' = kept ++ record { label = label; url = raw_url } ∷ [] in
    let skip = keep_links rest seen kept in
    let take = keep_links rest (raw_url ∷ seen) kept' in
    if is_empty label || not (has_prefix_fold raw_url "https://") || seen_in raw_url seen
    then skip
    else if eqb (length kept') 100
    then kept'
    else take

unfoldable pub with_links : Outgoing → List Link → Outgoing
with_links o links = record o { links = keep_links links [] [] }
