-- ===== src/Tests/Registers.antt =====
-- A witness for the law on the edits of a host.
use nexus_controller.Prelude.{
  ℕ, zero, suc, ◌+◌, ◌-◌, ◌*◌, ◌/◌, ◌%◌, ◌≤◌, ◌<◌, max, min, String, ◌≡◌, refl, sym, ap, ◌∙◌, subst,
  ◌≢◌, ◌↔◌, ◌⊎◌, inl, inr, Bool, true, false, not, ◌&&◌, ◌||◌, Option, none, some, List, [], ◌∷◌,
  ◌++◌, map, arith, eq_iff, ltb, leb, nat_beq, if◌then◌else◌, ltb→lt, lt→ltb, leb→le, le→leb,
  leb-false→lt, nat_beq_iff, Bool-cases, Option-cases, true-and-false, Checked, Checked-cases,
  ok-injective, ok, err, ◌==◌, beq_refl, nat_eq, string_eq, pair_beq, pair_beq_iff, pair_eq, length,
  take, length-append, length-take-le, select, any, length-select-le, any-map, any-select, any-ext,
  any-append, contains, contains-append, contains-select,
}
use nexus_controller.Registry.{Node, no_type, Payload, Info, by_token, Services, plan_edits, Edits}
use nexus_controller.Registry.Repin.{Pins, plan_edits-pinned}

abbrev info : Info
info = record { cert_fp = "ab12"; role = "admin"; version = "2.1"; capabilities = [] }

abbrev services : Services
services = record {
  auth_of = λ kind. by_token;
  probe = λ kind url creds. ok info;
  encrypt = λ s. s;
  decrypt = λ s. s;
  lower = λ s. s;
  clean_until = λ s. err "no";
}

abbrev nas : Node
nas = record {
  id = "h1";
  name = "nas";
  host_type = "nexus";
  base_url = "https://old";
  tags = [];
  category = "Storage";
  type_auto = some "Storage";
  type_pinned = false;
  disabled = false;
  disabled_until = "";
  token_enc = "t";
  username = "";
  password_enc = "";
  verify_ssl = false;
  cert_fp = "00";
  role = "admin";
  version = "2.0";
  capabilities = [];
  last_seen = "";
}

abbrev moved : Payload
moved = record {
  name = none;
  tags = none;
  disabled = none;
  disabled_until = "";
  category = no_type;
  base_url = "https://new/";
  token = "";
  username = "";
  password = "";
  verify_ssl = none;
}

abbrev edits : Edits
edits = λ n. record n {
  base_url = "https://new";
  cert_fp = "ab12";
  role = "admin";
  version = "2.1";
  capabilities = [];
}

planned : plan_edits services nas moved ≡ ok edits
unfolding plan_edits nexus_controller.Registry.edit_until nexus_controller.Registry.edit_type
    nexus_controller.Registry.edit_endpoint nexus_controller.Registry.needs_probe
    nexus_controller.Registry.url_changed nexus_controller.Prelude.Text.strip
    nexus_controller.Registry.rstrip_slash nexus_controller.Registry.probe_edits
    nexus_controller.Registry.token_edits nexus_controller.Registry.edit_disabled
    nexus_controller.Registry.target_url nexus_controller.Registry.edit_tags
    nexus_controller.Registry.edit_name
planned = refl

plan_edits-pinned_example :
    ((edits nas).base_url ≡ nas.base_url) × ((edits nas).cert_fp ≡ nas.cert_fp)
    ⊎ Pins services "nexus" (edits nas)
plan_edits-pinned_example = plan_edits-pinned services nas moved edits nas planned
