-- ===== src/Tests/Options.antt =====
-- Witnesses for the laws on the settings and the list of recent events.
use nexus_controller.Prelude.{
  ◌≤◌, String, ◌≡◌, refl, true, Option, none, some, [], ◌∷◌, map, ok, nat_eq, string_eq, pair_eq,
  length, contains,
}
use mathlib.Core.List.{reverse}
use nexus_controller.Prelude.Text
use nexus_controller.Prelude.Dict
use nexus_controller.Prelude.Dict.{Dict}
use nexus_controller.Prelude.Int.{ℤ, pos, negsuc}
use nexus_controller.Envelope.{critical, warning}
use nexus_controller.Monitoring.Snapshot.{firing, Event}
use nexus_controller.Settings.Tuning.{
  flap_cycles, monitor_interval, Defaults, bounds, tuning_defaults, clamp, tuning, tuning_save, key,
  tuning-bounds, tuning-saved,
}
use nexus_controller.Access.Scope.{clean_scope_tags}
use nexus_controller.Settings.Webhooks.{
  Webhook, NotifyConfig, is_http, notifications_save, shown, IsClean, all_of, all_of_none,
  notifications_save-shown,
}
use nexus_controller.Settings.Recent.{
  max_events, last, told, notifications_events, record_all, record_all-last,
}

abbrev env : Defaults
env = record {
  monitor_interval_default = pos 60;
  check_timeout_default = pos 5;
  flap_cycles_default = negsuc 1;
}

-- JSON values that are all numbers.
abbrev int : ℤ → Option ℤ
int = some

abbrev given : Dict String ℤ
given = ("flap_cycles", pos 4) ∷ []

saved : (tuning_save int (λ v. v) given []).0 ≡ ok (("flap_cycles", pos 4) ∷ [])
unfolding tuning_save nexus_controller.Settings.Tuning.clean_tuning
    nexus_controller.Settings.Tuning.clean_from Dict.get Dict.set
saved = refl

out_of_bounds : (tuning_save int (λ v. v) (("flap_cycles", pos 21) ∷ []) given).1 ≡ given
unfolding tuning_save nexus_controller.Settings.Tuning.clean_tuning
    nexus_controller.Settings.Tuning.clean_from Dict.get
out_of_bounds = refl

abbrev hook : Webhook
hook = record {
  id = "a1";
  name = "chat";
  url = "https://chat.example/key";
  format = "gchat";
  min_severity = warning;
  tags = "lab" ∷ [];
}

abbrev config : NotifyConfig
config = record { enabled = true; webhooks = hook ∷ [] }

abbrev same : String → String
same s = s

stripped_id : Text.strip "a1" ≡ "a1"
unfolding Text.strip
stripped_id = refl

stripped_name : Text.strip "chat" ≡ "chat"
unfolding Text.strip
stripped_name = refl

stripped_format : Text.strip "gchat" ≡ "gchat"
unfolding Text.strip
stripped_format = refl

clean_tags : clean_scope_tags ("lab" ∷ []) ≡ "lab" ∷ []
unfolding clean_scope_tags nexus_controller.Access.Scope.clean_tags_from Text.take Text.strip
    contains
clean_tags = refl

http : is_http same "https://chat.example/key" ≡ true
unfolding is_http
http = refl

ids_once : Dict.unique (map (λ h. (h.id, h)) config.webhooks) ≡ true
unfolding Dict.unique Dict.has
ids_once = refl

hook-IsClean : IsClean same hook
hook-IsClean = record {
  id_stripped = stripped_id;
  has_id = refl;
  name_stripped = stripped_name;
  has_name = refl;
  format_stripped = stripped_format;
  has_format = refl;
  tags_clean = clean_tags;
  http = http;
}

abbrev alarm : Event
alarm = record {
  host_id = "h1";
  host = "nas";
  key = "stale";
  kind = firing;
  severity = critical;
  detail = "stale";
}

tuning-bounds_example :
    ((bounds monitor_interval).0
      ≤ tuning int env (("monitor_interval", pos 4) ∷ []) monitor_interval)
    × (tuning int env (("monitor_interval", pos 4) ∷ []) monitor_interval
        ≤ (bounds monitor_interval).1)
tuning-bounds_example = tuning-bounds int env (("monitor_interval", pos 4) ∷ []) monitor_interval

tuning-saved_example :
    some (pos (tuning int env (tuning_save int (λ v. v) given []).1 flap_cycles))
    ≡ elim (Dict.get (key flap_cycles) given) [
      | none ↦ some (pos (clamp (bounds flap_cycles) (tuning_defaults env flap_cycles)))
      | some x ↦ int x
    ]
tuning-saved_example =
    tuning-saved int (λ v. v) env given [] (("flap_cycles", pos 4) ∷ []) flap_cycles (λ v. refl)
      saved

notifications_save-shown_example :
    notifications_save same (λ n. "fresh") true (some (shown hook) ∷ []) config ≡ config
notifications_save-shown_example =
    notifications_save-shown same (λ n. "fresh") config (all_of hook-IsClean all_of_none) ids_once

record_all-last_example :
    (notifications_events (record_all (("t1", alarm ∷ []) ∷ ("t2", alarm ∷ []) ∷ []) [])
      ≡ reverse (last max_events (told (("t1", alarm ∷ []) ∷ ("t2", alarm ∷ []) ∷ []))))
    × (length (record_all (("t1", alarm ∷ []) ∷ ("t2", alarm ∷ []) ∷ []) []) ≤ max_events)
record_all-last_example = record_all-last (("t1", alarm ∷ []) ∷ ("t2", alarm ∷ []) ∷ [])
