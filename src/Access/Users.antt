-- ===== src/Access/Users.antt =====
-- app.py: logins and scope presets as the routes change them: `change_password`,
-- `users_add`, `_users_update_locked`, `users_delete`, `scope_presets_save` and
-- `scope_presets_delete`. A route answers the configuration it has saved; where it
-- refuses, the saved one is unchanged. A JSON field is its text, "" if it is missing; `none` stands
-- for a key that is not in the body where the code asks for that.
use nexus_controller.Prelude.{
  ◌∷◌, ℕ, ◌+◌, String, Bool, true, false, not, ◌&&◌, ◌||◌, Option, none, some, List, [], ltb, leb,
  nat_beq, if◌then◌else◌, ◌==◌, nat_eq, string_eq, pair_eq, length, select, any,
}
use nexus_controller.Prelude.Text
use nexus_controller.Prelude.Dict
use nexus_controller.Prelude.Dict.{Dict}
use nexus_controller.Access.{Role, admin, operator, viewer, User, Config, Web, Reply, done, refuse}
use nexus_controller.Access.Scope.{clean_scope_tags, is_admin}

abbrev pub min_password_len : ℕ
min_password_len = 8

abbrev pub roles : String
roles = "role must be one of: admin, operator, viewer"

abbrev pub short : String
short = "password must be at least 8 characters"

-- [A-Za-z0-9._-]
abbrev pub is_name_code : ℕ → Bool
is_name_code c =
    leb 65 c && leb c 90
    || leb 97 c && leb c 122
    || leb 48 c && leb c 57
    || nat_beq c 46
    || nat_beq c 95
    || nat_beq c 45

-- RE_USERNAME
unfoldable pub is_username : String → Bool
is_username s =
    leb 1 (Text.length s)
    && leb (Text.length s) 32
    && not (Text.any_code (λ c. not (is_name_code c)) s)

-- `role in ROLES`, with the role it names
unfoldable pub role_named : String → Option Role
role_named s =
    if s == "admin"
    then some admin
    else (if s == "operator" then some operator else (if s == "viewer" then some viewer else none))

abbrev pub and_then {ℓ} : {A B : Type ℓ} → Reply A → (A → Reply B) → Reply B
and_then (done a) f = f a
and_then (refuse n why) f = refuse n why

abbrev pub save_users : Config → Dict String User → Config
save_users cfg users = record cfg { users = users }

unfoldable pub bump_session_gen : User → User
bump_session_gen rec = record rec { session_gen = rec.session_gen + 1 }

unfoldable pub new_password : Web → String → User → User
unfolding bump_session_gen
new_password w new rec =
    bump_session_gen (record rec { password = w.generate_hash new; must_change = false })

-- A login changes its own password; the number is the generation its session is stamped with.
unfoldable pub change_password : Web → Config → String → String → String → Reply (Config × ℕ)
change_password w cfg user old new =
    if Text.is_empty user
    then refuse 401 "Only an interactive session can change a password"
    else (if ltb (Text.length new) min_password_len
        then refuse 400 "New password must be at least 8 characters"
        else elim (Dict.get user cfg.users) [
          | none ↦ refuse 400 "Current password is incorrect"
          | some rec ↦
              if w.check_hash rec.password old
              then (let fresh = new_password w new rec in
                  done (save_users cfg (Dict.set user fresh cfg.users), fresh.session_gen))
              else refuse 400 "Current password is incorrect"
        ])

-- A preset is one that is there, or none.
abbrev pub unknown_preset : String → Config → Bool
unknown_preset preset cfg = not (Text.is_empty preset) && not (Dict.has preset cfg.presets)

-- A new login of an administrator has no scope; of a preset and tags the preset counts.
unfoldable pub preset_for : Role → String → String
preset_for role scope_preset = if is_admin role then "" else Text.strip scope_preset

unfoldable pub new_user : Web → Role → String → String → List String → User
unfolding preset_for
new_user w role pw scope_preset tags =
    let preset = preset_for role scope_preset in
    record {
      password = w.generate_hash pw;
      role = role;
      must_change = true;
      tags = if not (is_admin role) && Text.is_empty preset then clean_scope_tags tags else [];
      scope_preset = preset;
      session_gen = 0;
    }

abbrev pub unknown : String → String
unknown preset = Text.concat ("unknown scope preset: " ∷ preset ∷ [])

unfoldable pub users_add :
    Web → Config → String → String → String → String → List String → Reply Config
users_add w cfg username role pw scope_preset tags =
    let user = Text.strip username in
    if not (is_username user)
    then refuse 400 "username must be 1–32 chars: letters, digits, . _ -"
    else elim (role_named role) [
      | none ↦ refuse 400 roles
      | some ro ↦
          if ltb (Text.length pw) min_password_len
          then refuse 400 short
          else (if Dict.has user cfg.users
              then refuse 409 "user already exists"
              else (if unknown_preset (preset_for ro scope_preset) cfg
                  then refuse 400 (unknown (preset_for ro scope_preset))
                  else done (
                      save_users cfg
                        (Dict.set user (new_user w ro pw scope_preset tags) cfg.users))))
    ]

-- The body of an update; an empty password leaves the password as it is.
pub record Update : Type 0 where
  pub role : Option String
  pub password : String
  pub revoke_sessions : Bool
  pub scope_preset : Option String
  pub tags : Option (List String)

unfoldable pub update_role : String → String → Option String → User → Reply User
update_role me user none rec = done rec
update_role me user (some name) rec = elim (role_named name) [
  | none ↦ refuse 400 roles
  | some ro ↦
      if user == me && not (is_admin ro)
      then refuse 400 "cannot remove your own admin role"
      else done (record rec { role = ro })
]

unfoldable pub update_password : Web → String → User → Reply User
update_password w pw rec =
    if Text.is_empty pw
    then done rec
    else (if ltb (Text.length pw) min_password_len
        then refuse 400 short
        else done
            (bump_session_gen (record rec { password = w.generate_hash pw; must_change = true })))

abbrev pub revoke : Bool → User → User
revoke b rec = if b then bump_session_gen rec else rec

abbrev pub given {ℓ} : {A : Type ℓ} → Option A → Bool
given none = false
given (some a) = true

abbrev pub text_of : Option String → String
text_of none = ""
text_of (some s) = Text.strip s

abbrev pub list_of : Option (List String) → List String
list_of none = []
list_of (some ts) = ts

-- A preset clears the tags; without one the tags are set, which an administrator has none of.
unfoldable pub set_scope : String → List String → User → User
set_scope preset tags rec =
    if Text.is_empty preset
    then record rec {
      scope_preset = "";
      tags = if is_admin rec.role then [] else clean_scope_tags tags;
    }
    else record rec { scope_preset = preset; tags = [] }

unfoldable pub update_scope : Config → Option String → Option (List String) → User → Reply User
update_scope cfg scope_preset tags rec =
    if not (given scope_preset || given tags)
    then done rec
    else (if unknown_preset (text_of scope_preset) cfg
        then refuse 400 (unknown (text_of scope_preset))
        else done
            (set_scope (if is_admin rec.role then "" else text_of scope_preset) (list_of tags) rec))

-- Everything the route does to the record it has loaded.
unfoldable pub update_user : Web → Config → String → String → Update → User → Reply User
update_user w cfg me user body rec = and_then (update_role me user body.role rec) (λ r1.
    and_then (update_password w body.password r1)
      (λ r2. update_scope cfg body.scope_preset body.tags (revoke body.revoke_sessions r2)))

-- `me` is the login that asks; its own session is stamped with the new generation.
unfoldable pub users_update : Web → Config → String → String → Update → Reply (Config × Option ℕ)
users_update w cfg me user body = elim (Dict.get user cfg.users) [
  | none ↦ refuse 404 "user not found"
  | some rec ↦ and_then (update_user w cfg me user body rec) (λ r.
      done (
        save_users cfg (Dict.set user r cfg.users),
        if user == me then some r.session_gen else none,
      ))
]

abbrev pub count_admins : Dict String User → ℕ
count_admins users = length (select (λ p. is_admin p.1.role) users)

unfoldable pub users_delete : Config → String → String → Reply Config
users_delete cfg me user =
    if user == me
    then refuse 400 "cannot delete your own account"
    else elim (Dict.get user cfg.users) [
      | none ↦ refuse 404 "user not found"
      | some rec ↦
          if is_admin rec.role && leb (count_admins cfg.users) 1
          then refuse 400 "cannot delete the last admin"
          else done (record cfg {
            users = Dict.delete user cfg.users;
            tokens = select (λ p. not (p.1.user == user)) cfg.tokens;
          })
    ]

unfoldable pub scope_presets_save : Config → String → List String → Reply Config
scope_presets_save cfg name tags =
    let preset = Text.strip name in
    let clean = clean_scope_tags tags in
    if not (is_username preset)
    then refuse 400 "preset name must be 1–32 chars: letters, digits, . _ -"
    else (if nat_beq (length clean) 0
        then refuse 400 "a preset needs at least one tag"
        else done (record cfg { presets = Dict.set preset clean cfg.presets }))

-- The message also names the logins, which is left out here.
unfoldable pub scope_presets_delete : Config → String → Reply Config
scope_presets_delete cfg name =
    if not (Dict.has name cfg.presets)
    then refuse 404 "preset not found"
    else (if any (λ p. p.1.scope_preset == name) cfg.users
        then refuse 400 "preset is in use"
        else done (record cfg { presets = Dict.delete name cfg.presets }))
