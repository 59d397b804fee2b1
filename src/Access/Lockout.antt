-- ===== src/Access/Lockout.antt =====
-- app.py: the role of an administrator's own login, under the administrators' routes.
use nexus_controller.Prelude.{
  ℕ, String, ◌≡◌, refl, ap, inl, inr, Bool, true, false, not, ◌||◌, Option, none, some, List, [],
  ◌∷◌, arith, eq_iff, if◌then◌else◌, Bool-cases, Option-cases, ◌==◌, nat_eq, string_eq, pair_eq,
}
use nexus_controller.Prelude.Text
use nexus_controller.Prelude.Dict
use nexus_controller.Prelude.Dict.{Dict, at}
use nexus_controller.Access.{User, Config, Web, Reply, done, refuse}
use nexus_controller.Access.Scope.{is_admin}
use nexus_controller.Access.Users.{
  new_user, role_named, bump_session_gen, users_add, Update, update_role, update_password, revoke,
  text_of, list_of, set_scope, update_scope, update_user, users_update, users_delete,
  scope_presets_save, scope_presets_delete,
}
use nexus_controller.Access.Changes.{
  passes, passes-and_then, Change, add_user, update, delete_user, save_preset, delete_preset, saved,
  saved_first, enact, enact_all,
}

abbrev pub is_admin_login : String → Config → Bool
is_admin_login me cfg = at (λ r. is_admin r.role) (Dict.get me cfg.users)

-- An administrator who edits the own record stays one.
abbrev stays : Bool → User → Bool
stays own r = not own || is_admin r.role

update_role-stays :
    (me user : String) (name : Option String) (rec : User)
    → stays (user == me) rec ≡ true
    → passes (stays (user == me)) (update_role me user name rec) ≡ true
unfolding update_role
update_role-stays me user none rec h = h
update_role-stays me user (some name) rec h = ground arith

update_password-stays :
    (w : Web) (own : Bool) (pw : String) (rec : User)
    → stays own rec ≡ true
    → passes (stays own) (update_password w pw rec) ≡ true
unfolding update_password bump_session_gen
update_password-stays w own pw rec h = ground arith

revoke-stays : (own b : Bool) (rec : User) → stays own rec ≡ true → stays own (revoke b rec) ≡ true
unfolding bump_session_gen
revoke-stays own b rec h = ground arith

role-set_scope :
    (preset : String) (tags : List String) (rec : User)
    → (set_scope preset tags rec).role ≡ rec.role
unfolding set_scope
role-set_scope preset tags rec = ground arith

update_scope-stays :
    (cfg : Config) (own : Bool) (preset : Option String) (tags : Option (List String)) (rec : User)
    → stays own rec ≡ true
    → passes (stays own) (update_scope cfg preset tags rec) ≡ true
unfolding update_scope
update_scope-stays cfg own preset tags rec h =
    ground
      (arith, role-set_scope (if is_admin rec.role then "" else text_of preset) (list_of tags) rec)

update_user-stays :
    (w : Web) (cfg : Config) (me user : String) (body : Update) (rec : User)
    → stays (user == me) rec ≡ true
    → passes (stays (user == me)) (update_user w cfg me user body rec) ≡ true
unfolding update_user
update_user-stays w cfg me user body rec h =
    let own = user == me in
    passes-and_then _ _ _ (update_role me user body.role rec)
      (update_role-stays me user body.role rec h)
      (λ r1 h1.
        passes-and_then _ _ _ (update_password w body.password r1)
          (update_password-stays w own body.password r1 h1)
          (λ r2 h2.
            update_scope-stays cfg own body.scope_preset body.tags (revoke body.revoke_sessions r2)
              (revoke-stays own body.revoke_sessions r2 h2)))

own_record :
    (cfg : Config) (me user : String) (rec : User)
    → is_admin_login me cfg ≡ true
    → Dict.get user cfg.users ≡ some rec
    → stays (user == me) rec ≡ true
own_record cfg me user rec h is = elim (Bool-cases (user == me)) [
  | inl same ↦ ground (arith, ap (λ u. Dict.get u cfg.users) ((eq_iff user me).0 same))
  | inr other ↦ ground arith
]

save-admin :
    (me user : String) (r : User) (users : Dict String User)
    → at (λ r. is_admin r.role) (Dict.get me users) ≡ true
    → stays (user == me) r ≡ true
    → at (λ r. is_admin r.role) (Dict.get me (Dict.set user r users)) ≡ true
save-admin me user r users h k = ground (arith, Dict.get-set user me r users)

add-admin :
    (me user : String) (r : User) (users : Dict String User)
    → at (λ r. is_admin r.role) (Dict.get me users) ≡ true
    → Dict.has user users ≡ false
    → at (λ r. is_admin r.role) (Dict.get me (Dict.set user r users)) ≡ true
add-admin me user r users h k = elim (Bool-cases (user == me)) [
  | inl same ↦
      ground (arith, Dict.has-get user users, ap (λ u. Dict.get u users) ((eq_iff user me).0 same))
  | inr other ↦ save-admin me user r users h (ground arith)
]

users_update-admin :
    (w : Web) (cfg : Config) (me user : String) (body : Update)
    → is_admin_login me cfg ≡ true
    → passes (λ c. is_admin_login me c.0) (users_update w cfg me user body) ≡ true
unfolding users_update
users_update-admin w cfg me user body h = elim (Option-cases (Dict.get user cfg.users)) [
  | inl nobody ↦ rw (passes, nobody) refl
  | inr (rec, is) ↦
      rw (passes, is)
        (passes-and_then _ _ _ (update_user w cfg me user body rec)
          (update_user-stays w cfg me user body rec (own_record cfg me user rec h is))
          (λ r k. save-admin me user r cfg.users h k))
]

users_add-admin :
    (w : Web) (cfg : Config) (me name role pw preset : String) (tags : List String)
    → is_admin_login me cfg ≡ true
    → passes (is_admin_login me) (users_add w cfg name role pw preset tags) ≡ true
unfolding users_add
users_add-admin w cfg me name role pw preset tags h =
    elim (Bool-cases (Dict.has (Text.strip name) cfg.users)) [
      | inl old ↦ ground arith
      | inr new ↦ elim (Option-cases (role_named role)) [
        | inl junk ↦ ground arith
        | inr (ro, is) ↦
            ground
              (arith, add-admin me (Text.strip name) (new_user w ro pw preset tags) cfg.users h new)
      ]
    ]

users_delete-admin :
    (cfg : Config) (me user : String)
    → is_admin_login me cfg ≡ true
    → passes (is_admin_login me) (users_delete cfg me user) ≡ true
unfolding users_delete
users_delete-admin cfg me user h = ground (arith, Dict.get-delete user me cfg.users)

scope_presets_save-admin :
    (cfg : Config) (me name : String) (tags : List String)
    → is_admin_login me cfg ≡ true
    → passes (is_admin_login me) (scope_presets_save cfg name tags) ≡ true
unfolding scope_presets_save
scope_presets_save-admin cfg me name tags h = ground arith

scope_presets_delete-admin :
    (cfg : Config) (me name : String)
    → is_admin_login me cfg ≡ true
    → passes (is_admin_login me) (scope_presets_delete cfg name) ≡ true
unfolding scope_presets_delete
scope_presets_delete-admin cfg me name h = ground arith

saved-passes :
    (q : Config → Bool) (cfg : Config) (x : Reply Config)
    → q cfg ≡ true
    → passes q x ≡ true
    → q (saved cfg x) ≡ true
saved-passes q cfg (done c) h k = k
saved-passes q cfg (refuse n why) h k = h

saved_first-passes :
    (q : Config → Bool) (cfg : Config) (x : Reply (Config × Option ℕ))
    → q cfg ≡ true
    → passes (λ c. q c.0) x ≡ true
    → q (saved_first cfg x) ≡ true
saved_first-passes q cfg (done c) h k = k
saved_first-passes q cfg (refuse n why) h k = h

enact-admin :
    (w : Web) (me : String) (c : Change) (cfg : Config)
    → is_admin_login me cfg ≡ true
    → is_admin_login me (enact w me c cfg) ≡ true
unfolding enact
enact-admin w me (add_user name role pw preset tags) cfg h =
    saved-passes (is_admin_login me) cfg (users_add w cfg name role pw preset tags) h
      (users_add-admin w cfg me name role pw preset tags h)
enact-admin w me (update user body) cfg h =
    saved_first-passes (is_admin_login me) cfg (users_update w cfg me user body) h
      (users_update-admin w cfg me user body h)
enact-admin w me (delete_user user) cfg h =
    saved-passes (is_admin_login me) cfg (users_delete cfg me user) h
      (users_delete-admin cfg me user h)
enact-admin w me (save_preset name tags) cfg h =
    saved-passes (is_admin_login me) cfg (scope_presets_save cfg name tags) h
      (scope_presets_save-admin cfg me name tags h)
enact-admin w me (delete_preset name) cfg h =
    saved-passes (is_admin_login me) cfg (scope_presets_delete cfg name) h
      (scope_presets_delete-admin cfg me name h)

-- An administrator cannot lock out themselves: whatever sequence of changes to logins and presets
-- they ask for, refused ones included, their own login is there afterwards and is an administrator.
pub enact_all-admin :
    (w : Web) (me : String) (cs : List Change) (cfg : Config)
    → is_admin_login me cfg ≡ true
    → is_admin_login me (enact_all w me cs cfg) ≡ true
unfolding enact_all
enact_all-admin w me [] cfg h = h
enact_all-admin w me (c ∷ cs) cfg h =
    enact_all-admin w me cs (enact w me c cfg) (enact-admin w me c cfg h)
