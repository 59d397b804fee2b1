-- ===== src/Access/Scope.antt =====
-- app.py: `clean_scope_tags`, `user_scope` and `scope_allows`.
use nexus_controller.Prelude.{
  String, ◌≡◌, Bool, true, false, not, ◌&&◌, Option, none, some, List, [], ◌∷◌, ◌++◌, arith,
  if◌then◌else◌, nat_eq, string_eq, pair_eq, take, any, contains, contains-append,
}
use nexus_controller.Prelude.Text
use nexus_controller.Prelude.Dict
use nexus_controller.Prelude.Dict.{Dict}
use nexus_controller.Access.{Role, admin, User}

-- The loop of `clean_scope_tags`; `out` is what it has collected.
unfoldable pub clean_tags_from : List String → List String → List String
clean_tags_from out [] = out
clean_tags_from out (t ∷ ts) =
    let tag = Text.take 64 (Text.strip t) in
    clean_tags_from
      (if not (Text.is_empty tag) && not (contains out tag) then out ++ tag ∷ [] else out) ts

unfoldable pub clean_scope_tags : List String → List String
clean_scope_tags ts = take 32 (clean_tags_from [] ts)

-- `set(tags) or None`
abbrev pub or_unscoped : List String → Option (List String)
or_unscoped [] = none
or_unscoped (t ∷ ts) = some (t ∷ ts)

abbrev pub is_admin : Role → Bool
is_admin admin = true
is_admin _ = false

-- `none` sees the whole fleet. A reference to a preset that is not there sees nothing.
unfoldable pub user_scope : User → Role → Dict String (List String) → Option (List String)
user_scope rec role presets =
    if is_admin role
    then none
    else (if Text.is_empty rec.scope_preset
        then or_unscoped (clean_scope_tags rec.tags)
        else elim (Dict.get rec.scope_preset presets) [
          | none ↦ some []
          | some tags ↦ or_unscoped (clean_scope_tags tags)
        ])

unfoldable pub scope_allows : Option (List String) → List String → Bool
scope_allows none tags = true
scope_allows (some scope) tags = any (contains tags) scope

clean_tags_from-kept :
    (out ts : List String) (t : String)
    → contains out t ≡ true
    → contains (clean_tags_from out ts) t ≡ true
unfolding clean_tags_from
clean_tags_from-kept out [] t h = h
clean_tags_from-kept out (u ∷ ts) t h =
    let tag = Text.take 64 (Text.strip u) in
    clean_tags_from-kept
      (if not (Text.is_empty tag) && not (contains out tag) then out ++ tag ∷ [] else out) ts t
      (ground (arith, contains-append out (tag ∷ []) t))
