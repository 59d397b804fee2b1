-- ===== src/Access/Untouched.antt =====
-- app.py: the logins that a sequence of the administrators' routes does not name.
use nexus_controller.Prelude.{
  String, ◌≡◌, refl, ◌∙◌, inl, inr, Bool, false, none, some, List, [], ◌∷◌, arith, if◌then◌else◌,
  Option-cases, ◌==◌, nat_eq, string_eq, pair_eq, any,
}
use nexus_controller.Prelude.Text
use nexus_controller.Prelude.Dict
use nexus_controller.Prelude.Dict.{get-set, get-delete}
use nexus_controller.Access.{User, Config, Web, Reply, done, refuse}
use nexus_controller.Access.Users.{
  role_named, and_then, save_users, new_user, users_add, Update, update_user, users_update,
  users_delete, scope_presets_save, scope_presets_delete,
}
use nexus_controller.Access.Changes.{
  Change, add_user, update, delete_user, save_preset, delete_preset, saved, saved_first, enact,
  enact_all,
}

-- Whether a change is one of the login. The routes of the presets name no login.
abbrev pub touches : String → Change → Bool
touches u (add_user name role pw preset tags) = Text.strip name == u
touches u (update user body) = user == u
touches u (delete_user user) = user == u
touches u (save_preset name tags) = false
touches u (delete_preset name) = false

add-untouched :
    (w : Web) (cfg : Config) (u name role pw preset : String) (tags : List String)
    → (Text.strip name == u) ≡ false
    → Dict.get u (saved cfg (users_add w cfg name role pw preset tags)).users ≡ Dict.get u cfg.users
unfolding users_add
add-untouched w cfg u name role pw preset tags h = elim (Option-cases (role_named role)) [
  | inl junk ↦ ground arith
  | inr (ro, is) ↦
      ground (arith, get-set (Text.strip name) u (new_user w ro pw preset tags) cfg.users)
]

updated-untouched :
    (cfg : Config) (u me user : String) (answer : Reply User)
    → (user == u) ≡ false
    → Dict.get u
        (saved_first cfg (
          and_then answer (λ r. done (
            save_users cfg (Dict.set user r cfg.users),
            if user == me then some r.session_gen else none,
          )))).users
      ≡ Dict.get u cfg.users
updated-untouched cfg u me user (done r) h = ground (arith, get-set user u r cfg.users)
updated-untouched cfg u me user (refuse n why) h = refl

update-untouched :
    (w : Web) (cfg : Config) (u me user : String) (body : Update)
    → (user == u) ≡ false
    → Dict.get u (saved_first cfg (users_update w cfg me user body)).users ≡ Dict.get u cfg.users
unfolding users_update
update-untouched w cfg u me user body h = elim (Option-cases (Dict.get user cfg.users)) [
  | inl nobody ↦ ground arith
  | inr (rec, is) ↦
      ground (arith, updated-untouched cfg u me user (update_user w cfg me user body rec) h)
]

enact-untouched :
    (w : Web) (me u : String) (c : Change) (cfg : Config)
    → touches u c ≡ false
    → Dict.get u (enact w me c cfg).users ≡ Dict.get u cfg.users
unfolding enact users_delete scope_presets_save scope_presets_delete
enact-untouched w me u (add_user name role pw preset tags) cfg h =
    add-untouched w cfg u name role pw preset tags h
enact-untouched w me u (update user body) cfg h = update-untouched w cfg u me user body h
enact-untouched w me u (delete_user user) cfg h = ground (arith, get-delete user u cfg.users)
enact-untouched w me u (save_preset name tags) cfg h = ground arith
enact-untouched w me u (delete_preset name) cfg h = ground arith

-- The record of a login after some changes, unless one of them is of that login.
pub enact_all-untouched :
    (w : Web) (me u : String) (cs : List Change) (cfg : Config)
    → any (touches u) cs ≡ false
    → Dict.get u (enact_all w me cs cfg).users ≡ Dict.get u cfg.users
unfolding enact_all any
enact_all-untouched w me u [] cfg h = refl
enact_all-untouched w me u (c ∷ cs) cfg h =
    enact_all-untouched w me u cs (enact w me c cfg) (ground arith)
    ∙ enact-untouched w me u c cfg (ground arith)
