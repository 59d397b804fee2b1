-- ===== src/Tests/Alarms.antt =====
-- Acknowledgements and routing at concrete inputs.
use nexus_controller.Prelude.{
  String, ◌≡◌, refl, true, false, none, some, List, [], ◌∷◌, nat_beq, ok, nat_eq, string_eq,
  pair_eq, select, any, contains,
}
use nexus_controller.Access.{done}
use nexus_controller.Access.Scope.{scope_allows}
use nexus_controller.Monitoring.AckRoutes.{
  Host, find_node, acks_add, acks_delete, acks_add-quiets, acks_delete-live,
}
use nexus_controller.Prelude.Text
use nexus_controller.Prelude.Dict
use nexus_controller.Prelude.Dict.{Dict}
use nexus_controller.Envelope.{critical, warning, info, Ack, Entry}
use nexus_controller.Monitoring.Alerts.{breaks}
use nexus_controller.Monitoring.Snapshot.{firing, recovered, Event}
use nexus_controller.Monitoring.Acks.{Acks, ack_key, micros, clean_ack, split_acked, prune_acks}
use nexus_controller.Monitoring.Quiet.{recurrence_is_live}
use nexus_controller.Monitoring.Hooks.{Hook, hook_wants, recovery_follows}

abbrev known : Ack
known = record { author = "ops"; note = "waiting for a disk"; ts = 5; until = none }

abbrev two_acks : Acks
two_acks = ("h1|stale", known) ∷ ("h2|alerts", known) ∷ []

abbrev stale_entry : Entry
stale_entry = record { key = "stale"; severity = warning; detail = "background poll is stale" }

two_acks-unique : Dict.unique two_acks ≡ true
unfolding Dict.unique Dict.has
two_acks-unique = refl

stale_cleared : contains ("h2|alerts" ∷ []) (ack_key "h1" "stale") ≡ false
unfolding contains ack_key Text.concat
stale_cleared = refl

recurrence_is_live_example :
    split_acked (stale_entry ∷ []) (prune_acks two_acks ("h2|alerts" ∷ []) 7).1 "h1" 9
    ≡ (stale_entry ∷ [], [])
recurrence_is_live_example =
    recurrence_is_live two_acks ("h2|alerts" ∷ []) "h1" 7 9 stale_entry two_acks-unique
      stale_cleared

abbrev hour_ack : Ack
hour_ack = record { author = "ops"; note = "known"; ts = 5; until = some 3605 }

hour_accepted : clean_ack (micros 3600000000) "known" "ops" 5000000 ≡ ok hour_ack
unfolding clean_ack nexus_controller.Monitoring.Alerts.one_line Text.join Text.split
hour_accepted = refl

plain_id : Text.any_code (nat_beq b'|') "h1" ≡ false
unfolding Text.any_code
plain_id = refl

abbrev pager : Hook
pager = record {
  url = "https://hook";
  format = "slack";
  min_severity = some critical;
  tags = "prod" ∷ [];
}

abbrev fire : Event
fire = record {
  host_id = "h1";
  host = "nas";
  key = "unreachable";
  kind = firing;
  severity = critical;
  detail = "timed out";
}

abbrev back : Event
back = record fire { kind = recovered; severity = info; detail = "reachable again" }

abbrev tagged : Dict String (List String)
tagged = ("h1", "prod" ∷ []) ∷ []

pager_wants : hook_wants pager fire tagged ≡ true
unfolding hook_wants nexus_controller.Monitoring.Hooks.routes select any contains Dict.get
pager_wants = refl

abbrev nas : Host
nas = record { id = "h1"; name = "nas"; tags = "prod" ∷ [] }

abbrev hour_acks : Acks
hour_acks = ("h1|stale", hour_ack) ∷ ("h2|alerts", known) ∷ []

ack_added :
    acks_add
      (some ("prod" ∷ []))
      (nas ∷ [])
      two_acks
      "ops"
      "h1"
      "stale"
      "known"
      (micros 3600000000)
      5000000
    ≡ done hour_acks
unfolding acks_add find_node Text.strip scope_allows any contains
    nexus_controller.Monitoring.AckRoutes.is_condition_key Text.any_code clean_ack Dict.set ack_key
    Text.concat nexus_controller.Monitoring.Alerts.one_line Text.join Text.split
ack_added = refl

same_key : stale_entry.key ≡ Text.strip "stale"
unfolding Text.strip
same_key = refl

abbrev other_acks : Acks
other_acks = ("h2|alerts", known) ∷ []

ack_deleted : acks_delete none (nas ∷ []) two_acks "h1" "stale" ≡ done other_acks
unfolding acks_delete find_node scope_allows Dict.has ack_key Text.concat Dict.delete
ack_deleted = refl
