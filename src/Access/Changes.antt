-- ===== src/Access/Changes.antt =====
-- app.py: the administrators' routes as a sequence of changes.
use nexus_controller.Prelude.{
  ℕ, String, ◌≡◌, refl, Bool, true, Option, List, [], ◌∷◌, nat_eq, string_eq, pair_eq,
}
use nexus_controller.Access.{Config, Web, Reply, done, refuse}
use nexus_controller.Access.Users.{
  and_then, users_add, Update, users_update, users_delete, scope_presets_save, scope_presets_delete,
}

-- The test of the answer of a route that has not refused.
abbrev pub passes {ℓ} : {A : Type ℓ} → (A → Bool) → Reply A → Bool
passes q (done a) = q a
passes q (refuse n why) = true

pub passes-and_then {ℓ} :
    {A B : Type ℓ} (p : A → Bool) (q : B → Bool) (f : A → Reply B) (x : Reply A)
    → passes p x ≡ true
    → ((a : A) → p a ≡ true → passes q (f a) ≡ true)
    → passes q (and_then x f) ≡ true
passes-and_then p q f (done a) h k = k a h
passes-and_then p q f (refuse n why) h k = refl

-- The administrators' routes.
pub data Change : Type 0 where
  add_user : (username role password scope_preset : String) → List String → Change
  update : String → Update → Change
  delete_user : String → Change
  save_preset : String → List String → Change
  delete_preset : String → Change

abbrev pub saved : Config → Reply Config → Config
saved cfg (done c) = c
saved cfg (refuse n why) = cfg

abbrev pub saved_first : Config → Reply (Config × Option ℕ) → Config
saved_first cfg (done c) = c.0
saved_first cfg (refuse n why) = cfg

-- The configuration that is saved once `me` has asked for a change.
unfoldable pub enact : Web → String → Change → Config → Config
enact w me (add_user name role pw preset tags) cfg =
    saved cfg (users_add w cfg name role pw preset tags)
enact w me (update user body) cfg = saved_first cfg (users_update w cfg me user body)
enact w me (delete_user user) cfg = saved cfg (users_delete cfg me user)
enact w me (save_preset name tags) cfg = saved cfg (scope_presets_save cfg name tags)
enact w me (delete_preset name) cfg = saved cfg (scope_presets_delete cfg name)

unfoldable pub enact_all : Web → String → List Change → Config → Config
enact_all w me [] cfg = cfg
enact_all w me (c ∷ cs) cfg = enact_all w me cs (enact w me c cfg)
