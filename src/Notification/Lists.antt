-- ===== src/Notification/Lists.antt =====
-- Lemmas on the entries of a configuration, on the sets of events and on the filters' rules.
use provider_minio.Base.GoMap.{GoMap, lookup, has_key, insert, lookup-insert}
use provider_minio.Base.{
  if◌then◌else◌, nat_eq, is_some, ◌==◌, Bool-cases, length, all, member, distinct, suc, ◌+◌, ◌≤◌,
  String, ◌≡◌, refl, inl, inr, Bool, true, false, not, ◌&&◌, ◌||◌, Option, none, some, List, [],
  ◌∷◌, map, arith, eq_iff, eq_refl,
}
use provider_minio.Apis.Notification.{NotificationParameters, WebhookConfiguration, FilterRule}
use provider_minio.Client.S3.{Notifications}
use provider_minio.Notification.Lambda.{spec_rules, to_rule, written_filter, new_lambda}
use provider_minio.Notification.Entry.{IsPrinting}
use provider_minio.Notification.Match.{
  event_set, in_set, events_match, rules_match, filter_matches, is_configuration_up_to_date,
}

length-insert :
    (k : String) (v : Bool) (m : GoMap Bool)
    → length (insert k v m) ≡ (if has_key k m then length m else suc (length m))
unfolding insert has_key lookup
length-insert k v [] = refl
length-insert k v ((j, w) ∷ m) = ground (arith, length-insert k v m)

has_key-insert_any :
    (k j : String) (v : Bool) (m : GoMap Bool) → has_key j (insert k v m) ≡ (k == j || has_key j m)
unfolding has_key
has_key-insert_any k j v m = ground (arith, lookup-insert k j v m)

-- None of the texts is a key.
abbrev fresh : List String → GoMap Bool → Bool
fresh es m = all (λ e. not (has_key e m)) es

fresh-insert :
    (es : List String) (k : String) (m : GoMap Bool)
    → fresh es (insert k true m) ≡ (fresh es m && not (member k es))
fresh-insert [] k m = refl
fresh-insert (e ∷ es) k m =
    ground (arith, fresh-insert es k m, has_key-insert_any k e true m, eq_iff k e, eq_iff e k)

length-event_set-le :
    (es : List String) (m : GoMap Bool) → length (event_set es m) ≤ length m + length es
unfolding event_set
length-event_set-le [] m = omega arith
length-event_set-le (e ∷ es) m =
    ground (arith, length-event_set-le es (insert e true m), length-insert e true m)

-- Each event makes an entry of its own exactly where no two are the same.
length-event_set :
    (es : List String) (m : GoMap Bool)
    → nat_eq (length m + length es) (length (event_set es m)) ≡ (distinct es && fresh es m)
unfolding event_set
length-event_set [] m = ground arith
length-event_set (e ∷ es) m = elim (Bool-cases (has_key e m)) [
  | inl old ↦ ground (arith, length-event_set-le es (insert e true m), length-insert e true m)
  | inr new ↦
      ground
        (arith, length-event_set es (insert e true m), length-insert e true m, fresh-insert es e m)
]

in_set-event_set :
    (es : List String) (m : GoMap Bool) (x : String)
    → in_set (event_set es m) x ≡ (member x es || in_set m x)
unfolding event_set in_set
in_set-event_set [] m x = refl
in_set-event_set (e ∷ es) m x =
    ground (arith, in_set-event_set es (insert e true m) x, lookup-insert e x true m, eq_iff e x)

fresh-nil : (es : List String) → fresh es [] ≡ true
unfolding has_key lookup
fresh-nil [] = refl
fresh-nil (e ∷ es) = fresh-nil es

all-in_set : (es xs : List String) → all (in_set (event_set es [])) xs ≡ all (λ x. member x es) xs
all-in_set es [] = refl
all-in_set es (x ∷ xs) = ground (arith, all-in_set es xs, in_set-event_set es [] x, in_set_nil x)
  where
    in_set_nil : (x : String) → in_set [] x ≡ false
    in_set_nil x = unfold in_set lookup in refl

all-member_cons :
    (es xs : List String) (e : String)
    → all (λ x. member x es) xs ≡ true
    → all (λ x. member x (e ∷ es)) xs ≡ true
all-member_cons es [] e h = refl
all-member_cons es (x ∷ xs) e h = ground (arith, all-member_cons es xs e)

all-member_self : (es : List String) → all (λ x. member x es) es ≡ true
all-member_self [] = refl
all-member_self (e ∷ es) = ground (arith, eq_refl e, all-member_cons es es e (all-member_self es))

-- A list of events matches itself exactly where no event stands in it twice.
pub events_match_self : (es : List String) → events_match es es ≡ distinct es
unfolding events_match
events_match_self es =
    ground (arith, length-event_set es [], fresh-nil es, all-in_set es es, all-member_self es)

rules_match-map : (rules : List FilterRule) → rules_match rules (map to_rule rules) ≡ true
unfolding rules_match to_rule
rules_match-map [] = refl
rules_match-map (r ∷ rules) = ground (arith, eq_refl r.name, eq_refl r.value, rules_match-map rules)

length-map : (rules : List FilterRule) → length (map to_rule rules) ≡ length rules
length-map [] = refl
length-map (r ∷ rules) = ground (arith, length-map rules)

filter_matches-written :
    (rules : Option (List FilterRule))
    → filter_matches rules (written_filter (some none) rules) ≡ is_some rules
unfolding filter_matches written_filter
filter_matches-written none = refl
filter_matches-written (some rules) = ground (arith, rules_match-map rules, length-map rules)

module _ {S Rest : Type 0} (mc : Notifications S Rest) (law : IsPrinting mc) where
  -- The entry that Create and Update append counts as up to date, as it stands there, exactly where
  -- the specification has a filter with a key and gives no event twice: without a filter it has the
  -- filter that `NewConfig` makes, which is not nil.
  pub new_lambda-latest_iff :
      (spec : NotificationParameters) (webhook : WebhookConfiguration)
      → spec.webhook_configuration ≡ some webhook
      → is_configuration_up_to_date spec (new_lambda mc spec webhook)
        ≡ (distinct spec.events && is_some (spec_rules spec))
  unfolding is_configuration_up_to_date new_lambda
  new_lambda-latest_iff spec webhook e = ground (
    arith,
    law.config_made (mc.new_arn "minio" "sqs" "" webhook.id "webhook"),
    events_match_self spec.events,
    filter_matches-written (spec_rules spec),
    eq_refl webhook.endpoint,
  )
