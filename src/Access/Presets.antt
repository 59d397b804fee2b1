-- ===== src/Access/Presets.antt =====
-- app.py: the references of logins to scope presets, under the administrators' routes.
use nexus_controller.Prelude.{
  String, ◌≡◌, refl, inl, inr, Bool, true, false, not, Option, none, some, List, [], ◌∷◌, arith,
  if◌then◌else◌, Bool-cases, Option-cases, ◌==◌, nat_eq, string_eq, pair_eq, any,
}
use nexus_controller.Prelude.Text
use nexus_controller.Prelude.Dict
use nexus_controller.Prelude.Dict.{Dict, at, get-set, get-delete, has-set, has-delete}
use nexus_controller.Access.{Role, User, Config, Web, Reply, done, refuse}
use nexus_controller.Access.Scope.{clean_scope_tags, is_admin}
use nexus_controller.Access.Users.{
  role_named, and_then, save_users, bump_session_gen, unknown_preset, new_user, preset_for,
  users_add, Update, update_role, update_password, revoke, text_of, list_of, set_scope,
  update_scope, update_user, users_update, users_delete, scope_presets_save, scope_presets_delete,
}
use nexus_controller.Access.Changes.{
  passes, passes-and_then, Change, add_user, update, delete_user, save_preset, delete_preset, saved,
  saved_first, enact, enact_all,
}
use nexus_controller.Access.Untouched.{touches, enact_all-untouched}

-- Each login has no preset or one that is there.
abbrev pub HasPresets : Config → Type 0
HasPresets cfg =
    (u : String) → at (λ r. unknown_preset r.scope_preset cfg) (Dict.get u cfg.users) ≡ false

abbrev is_known : Config → User → Bool
is_known cfg r = not (unknown_preset r.scope_preset cfg)

-- A refusal keeps everything.
abbrev Keeps {ℓ} : {A : Type ℓ} → (A → Type 0) → Reply A → Type 0
Keeps P (done a) = P a
Keeps P (refuse n why) = Unit {0}

save-HasPresets :
    (cfg : Config) (user : String) (r : User)
    → HasPresets cfg
    → is_known cfg r ≡ true
    → HasPresets (save_users cfg (Dict.set user r cfg.users))
save-HasPresets cfg user r h k u = ground (arith, get-set user u r cfg.users, h u)

update_role-known :
    (cfg : Config) (me user : String) (name : Option String) (rec : User)
    → is_known cfg rec ≡ true
    → passes (is_known cfg) (update_role me user name rec) ≡ true
unfolding update_role
update_role-known cfg me user none rec h = h
update_role-known cfg me user (some name) rec h = ground arith

update_password-known :
    (w : Web) (cfg : Config) (pw : String) (rec : User)
    → is_known cfg rec ≡ true
    → passes (is_known cfg) (update_password w pw rec) ≡ true
unfolding update_password bump_session_gen
update_password-known w cfg pw rec h = ground arith

revoke-known :
    (cfg : Config) (b : Bool) (rec : User)
    → is_known cfg rec ≡ true
    → is_known cfg (revoke b rec) ≡ true
unfolding bump_session_gen
revoke-known cfg b rec h = ground arith

set_scope-known :
    (cfg : Config) (preset : String) (tags : List String) (rec : User)
    → unknown_preset preset cfg ≡ false
    → is_known cfg (set_scope preset tags rec) ≡ true
unfolding set_scope
set_scope-known cfg preset tags rec h = ground arith

nobody_or :
    (cfg : Config) (b : Bool) (asked : String)
    → unknown_preset asked cfg ≡ false
    → unknown_preset (if b then "" else asked) cfg ≡ false
nobody_or cfg true asked h = refl
nobody_or cfg false asked h = h

update_scope-known :
    (cfg : Config) (preset : Option String) (tags : Option (List String)) (rec : User)
    → is_known cfg rec ≡ true
    → passes (is_known cfg) (update_scope cfg preset tags rec) ≡ true
unfolding update_scope
update_scope-known cfg preset tags rec h =
    let asked = text_of preset in
    elim (Bool-cases (unknown_preset asked cfg)) [
      | inl unknown ↦ ground arith
      | inr known ↦
          let chosen = if is_admin rec.role then "" else asked in
          ground (
            arith,
            set_scope-known cfg chosen (list_of tags) rec
                (nobody_or cfg (is_admin rec.role) asked known),
          )
    ]

update_user-known :
    (w : Web) (cfg : Config) (me user : String) (body : Update) (rec : User)
    → is_known cfg rec ≡ true
    → passes (is_known cfg) (update_user w cfg me user body rec) ≡ true
unfolding update_user
update_user-known w cfg me user body rec h =
    passes-and_then _ _ _ (update_role me user body.role rec)
      (update_role-known cfg me user body.role rec h)
      (λ r1 h1.
        passes-and_then _ _ _ (update_password w body.password r1)
          (update_password-known w cfg body.password r1 h1)
          (λ r2 h2.
            update_scope-known cfg body.scope_preset body.tags (revoke body.revoke_sessions r2)
              (revoke-known cfg body.revoke_sessions r2 h2)))

any-get :
    {V : Type 0} (q : V → Bool) (k : String) (d : Dict String V)
    → any (λ p. q p.1) d ≡ false
    → at q (Dict.get k d) ≡ false
unfolding any Dict.get
any-get q k [] h = refl
any-get q k ((j, v) ∷ d) h = ground (arith, any-get q k d)

users_delete-HasPresets :
    (cfg : Config) (me user : String)
    → HasPresets cfg
    → HasPresets (saved cfg (users_delete cfg me user))
unfolding users_delete
users_delete-HasPresets cfg me user h u = ground (arith, get-delete user u cfg.users, h u)

preset-new_user :
    (w : Web) (ro : Role) (pw preset : String) (tags : List String)
    → (new_user w ro pw preset tags).scope_preset ≡ preset_for ro preset
unfolding new_user
preset-new_user w ro pw preset tags = refl

users_add-HasPresets :
    (w : Web) (cfg : Config) (name role pw preset : String) (tags : List String)
    → HasPresets cfg
    → HasPresets (saved cfg (users_add w cfg name role pw preset tags))
unfolding users_add
users_add-HasPresets w cfg name role pw preset tags h u = elim (Option-cases (role_named role)) [
  | inl junk ↦ ground (arith, h u)
  | inr (ro, is) ↦ ground (
    arith,
    h u,
    get-set (Text.strip name) u (new_user w ro pw preset tags) cfg.users,
    preset-new_user w ro pw preset tags,
  )
]

scope_presets_save-HasPresets :
    (cfg : Config) (name : String) (tags : List String)
    → HasPresets cfg
    → HasPresets (saved cfg (scope_presets_save cfg name tags))
unfolding scope_presets_save
scope_presets_save-HasPresets cfg name tags h u = elim (Option-cases (Dict.get u cfg.users)) [
  | inl nobody ↦ ground (arith)
  | inr (r, is) ↦
      ground
        (arith, h u, has-set (Text.strip name) r.scope_preset (clean_scope_tags tags) cfg.presets)
]

scope_presets_delete-HasPresets :
    (cfg : Config) (name : String)
    → HasPresets cfg
    → HasPresets (saved cfg (scope_presets_delete cfg name))
unfolding scope_presets_delete
scope_presets_delete-HasPresets cfg name h u = elim (Option-cases (Dict.get u cfg.users)) [
  | inl nobody ↦ ground (arith)
  | inr (r, is) ↦ ground (
    arith,
    h u,
    any-get (λ r. r.scope_preset == name) u cfg.users,
    has-delete name r.scope_preset cfg.presets,
  )
]

updated-HasPresets :
    (cfg : Config) (me user : String) (answer : Reply User)
    → HasPresets cfg
    → passes (is_known cfg) answer ≡ true
    → HasPresets (
        saved_first cfg (
          and_then answer (λ r. done (
            save_users cfg (Dict.set user r cfg.users),
            if user == me then some r.session_gen else none,
          ))))
updated-HasPresets cfg me user (done r) h k = save-HasPresets cfg user r h k
updated-HasPresets cfg me user (refuse n why) h k = h

users_update-HasPresets :
    (w : Web) (cfg : Config) (me user : String) (body : Update)
    → HasPresets cfg
    → HasPresets (saved_first cfg (users_update w cfg me user body))
unfolding users_update
users_update-HasPresets w cfg me user body h = elim (Option-cases (Dict.get user cfg.users)) [
  | inl nobody ↦ λ u. ground (arith, h u)
  | inr (rec, is) ↦ λ u. ground (
    arith,
    updated-HasPresets cfg me user (update_user w cfg me user body rec) h
        (update_user-known w cfg me user body rec (ground (arith, h user))) u,
  )
]

enact-HasPresets :
    (w : Web) (me : String) (c : Change) (cfg : Config)
    → HasPresets cfg
    → HasPresets (enact w me c cfg)
unfolding enact
enact-HasPresets w me (add_user name role pw preset tags) cfg h =
    users_add-HasPresets w cfg name role pw preset tags h
enact-HasPresets w me (update user body) cfg h = users_update-HasPresets w cfg me user body h
enact-HasPresets w me (delete_user user) cfg h = users_delete-HasPresets cfg me user h
enact-HasPresets w me (save_preset name tags) cfg h = scope_presets_save-HasPresets cfg name tags h
enact-HasPresets w me (delete_preset name) cfg h = scope_presets_delete-HasPresets cfg name h

keeps-HasPresets :
    (w : Web) (me : String) (cs : List Change) (cfg : Config)
    → HasPresets cfg
    → HasPresets (enact_all w me cs cfg)
unfolding enact_all
keeps-HasPresets w me [] cfg h = h
keeps-HasPresets w me (c ∷ cs) cfg h =
    keeps-HasPresets w me cs (enact w me c cfg) (enact-HasPresets w me c cfg h)

keeps-untouched :
    (w : Web) (me : String) (cs : List Change) (cfg : Config) (u : String)
    → Dict.get u (enact_all w me cs cfg).users ≡ (
        if any (touches u) cs
        then Dict.get u (enact_all w me cs cfg).users
        else Dict.get u cfg.users)
keeps-untouched w me cs cfg u = elim (Bool-cases (any (touches u) cs)) [
  | inl touched ↦ rw touched refl
  | inr untouched ↦ rw (untouched, enact_all-untouched w me u cs cfg untouched) refl
]

-- Whatever sequence of changes to logins and presets the administrators ask for, refused ones
-- included: if each login had no preset or one that is there, so it has afterwards; and a login that no
-- change of the sequence adds, updates or deletes by name has the record it had, its preset and its tags
-- included, whatever presets were saved or deleted.
pub enact_all-HasPresets :
    (w : Web) (me : String) (cs : List Change) (cfg : Config)
    → HasPresets cfg
    → HasPresets (enact_all w me cs cfg)
      × ((u : String)
          → Dict.get u (enact_all w me cs cfg).users ≡ (
              if any (touches u) cs
              then Dict.get u (enact_all w me cs cfg).users
              else Dict.get u cfg.users))
enact_all-HasPresets w me cs cfg h = (keeps-HasPresets w me cs cfg h, keeps-untouched w me cs cfg)
