-- ===== src/Registry/Repin.antt =====
-- app.py: what an edit of a host may do to the address of the host and to its pinned certificate.
use nexus_controller.Prelude.{
  String, ◌≡◌, refl, ◌∙◌, subst, ◌⊎◌, inl, inr, Bool, true, false, Option, none, some, List, arith,
  Checked, ok-injective, ok, err, ◌==◌, nat_eq, string_eq, pair_eq,
}
use nexus_controller.Registry.{
  Node, no_type, other_type, type_text, TypeField, Payload, Creds, Info, Auth, by_token,
  by_password, Services, clean_type, Edits, edit_name, edit_tags, edit_disabled, until_edits,
  edit_until, type_edits, edit_type, endpoint_edits, given_or, probed, token_creds, password_creds,
  token_edits, password_edits, probe_edits, edit_endpoint, checked_then, plan_edits,
}

then-ok {ℓ κ} :
    {A : Type ℓ} {B : Type κ} (r : Checked A) (f : A → Checked B) (b : B)
    → checked_then r f ≡ ok b
    → (a : A) × (r ≡ ok a) × (f a ≡ ok b)
then-ok (err why) f b h = ground arith
then-ok (ok a) f b h = (a, refl, h)

-- The edits leave the address and the certificate of each record alone.
abbrev Keeps : Edits → Type 0
Keeps edits = (n : Node) → ((edits n).base_url ≡ n.base_url) × ((edits n).cert_fp ≡ n.cert_fp)

-- The edits set the address and the certificate together, by a probe of that very address.
abbrev pub Pins : Services → String → Node → Type 0
Pins sv kind after =
    (creds : Creds) × ((info : Info) × ((sv.probe kind after.base_url creds ≡ ok info)
        × (after.cert_fp ≡ info.cert_fp)))

edit_name-Keeps : (cur : Node) (name : Option String) → Keeps (edit_name cur name)
unfolding edit_name
edit_name-Keeps cur none n = (refl, refl)
edit_name-Keeps cur (some name) n = (refl, refl)

edit_tags-Keeps : (tags : Option (List String)) → Keeps (edit_tags tags)
unfolding edit_tags
edit_tags-Keeps none n = (refl, refl)
edit_tags-Keeps (some tags) n = (refl, refl)

edit_disabled-Keeps : (b : Option Bool) → Keeps (edit_disabled b)
unfolding edit_disabled
edit_disabled-Keeps none n = (refl, refl)
edit_disabled-Keeps (some b) n = (refl, refl)

-- Every edit that is planned keeps them.
abbrev AllKeep : Checked Edits → Type 0
AllKeep r = (edits : Edits) → r ≡ ok edits → Keeps edits

ok-Keeps : (f : Edits) → Keeps f → AllKeep (ok f)
ok-Keeps f k edits e = subst Keeps (ok-injective e) k

err-Keeps : (why : String) → AllKeep (err why)
err-Keeps why edits e = ground arith

until_edits-Keeps : (b : Bool) (r : Checked String) → AllKeep (until_edits b r)
until_edits-Keeps false r = ok-Keeps (λ n. n) (λ n. (refl, refl))
until_edits-Keeps true (err why) = err-Keeps why
until_edits-Keeps true (ok until) =
    ok-Keeps (λ n. record n { disabled_until = until }) (λ n. (refl, refl))

type_edits-Keeps :
    (cur : Node) (b : Bool) (label : Option String) → AllKeep (type_edits cur b label)
type_edits-Keeps cur true label =
    ok-Keeps (λ n. record n { type_pinned = false; category = given_or cur.type_auto "Unknown" })
      (λ n. (refl, refl))
type_edits-Keeps cur false none = err-Keeps "invalid type"
type_edits-Keeps cur false (some label) =
    ok-Keeps (λ n. record n { category = label; type_pinned = true }) (λ n. (refl, refl))

edit_type-Keeps : (sv : Services) (cur : Node) (t : TypeField) → AllKeep (edit_type sv cur t)
unfolding edit_type
edit_type-Keeps sv cur no_type = ok-Keeps (λ n. n) (λ n. (refl, refl))
edit_type-Keeps sv cur other_type = err-Keeps "invalid type"
edit_type-Keeps sv cur (type_text s) = type_edits-Keeps cur (s == "auto") (clean_type sv.lower s)

probed-ok :
    (r : Checked Info) (f : Info → Edits) (edits : Edits)
    → probed r f ≡ ok edits
    → (info : Info) × (r ≡ ok info) × (f info ≡ edits)
probed-ok (err why) f edits h = ground arith
probed-ok (ok info) f edits h = (info, refl, ok-injective h)

probe_edits-Pins :
    (sv : Services) (auth : Auth) (cur : Node) (d : Payload) (edits : Edits) (n : Node)
    → probe_edits sv auth cur d ≡ ok edits
    → Pins sv cur.host_type (edits n)
unfolding probe_edits token_edits password_edits
probe_edits-Pins sv by_token cur d edits n h =
    let (info, is, same) = probed-ok _ _ edits h in
    subst (λ f. Pins sv cur.host_type (f n)) same (token_creds sv cur d, (info, (is, refl)))
probe_edits-Pins sv by_password cur d edits n h =
    let (info, is, same) = probed-ok _ _ edits h in
    subst (λ f. Pins sv cur.host_type (f n)) same (password_creds sv cur d, (info, (is, refl)))

endpoint_edits-Pins :
    (sv : Services) (b : Bool) (cur : Node) (d : Payload) (edits : Edits) (n : Node)
    → endpoint_edits b (probe_edits sv (sv.auth_of cur.host_type) cur d) ≡ ok edits
    → ((edits n).base_url ≡ n.base_url) × ((edits n).cert_fp ≡ n.cert_fp)
      ⊎ Pins sv cur.host_type (edits n)
endpoint_edits-Pins sv false cur d edits n h = inl (ok-Keeps (λ n. n) (λ n. (refl, refl)) edits h n)
endpoint_edits-Pins sv true cur d edits n h =
    inr (probe_edits-Pins sv (sv.auth_of cur.host_type) cur d edits n h)

-- An edit that is accepted either leaves the address and the pinned certificate of the record as they were,
-- or sets both at once, to an address that a probe has just reached and the certificate that it saw there.
pub plan_edits-pinned :
    (sv : Services) (cur : Node) (d : Payload) (edits : Edits) (n : Node)
    → plan_edits sv cur d ≡ ok edits
    → ((edits n).base_url ≡ n.base_url) × ((edits n).cert_fp ≡ n.cert_fp)
      ⊎ Pins sv cur.host_type (edits n)
unfolding plan_edits edit_until edit_endpoint
plan_edits-pinned sv cur d edits n h =
    let (until, until_is, h1) = then-ok (edit_until sv d) _ edits h in
    let (kind, kind_is, h2) = then-ok (edit_type sv cur d.category) _ edits h1 in
    let (endpoint, endpoint_is, h3) = then-ok (edit_endpoint sv cur d) _ edits h2 in
    let named = edit_name cur d.name n in
    let tagged = edit_tags d.tags named in
    let paused = edit_disabled d.disabled tagged in
    let k1 = edit_name-Keeps cur d.name n in
    let k2 = edit_tags-Keeps d.tags named in
    let k3 = edit_disabled-Keeps d.disabled tagged in
    let k4 = until_edits-Keeps _ _ until until_is paused in
    let k5 = edit_type-Keeps sv cur d.category kind kind_is (until paused) in
    let same_url = k5.0 ∙ k4.0 ∙ k3.0 ∙ k2.0 ∙ k1.0 in
    let same_fp = k5.1 ∙ k4.1 ∙ k3.1 ∙ k2.1 ∙ k1.1 in
    subst
      (λ f.
        ((f n).base_url ≡ n.base_url) × ((f n).cert_fp ≡ n.cert_fp) ⊎ Pins sv cur.host_type (f n))
      (ok-injective h3)
      (elim (endpoint_edits-Pins sv _ cur d endpoint (kind (until paused)) endpoint_is) [
        | inl kept ↦ inl (kept.0 ∙ same_url, kept.1 ∙ same_fp)
        | inr pinned ↦ inr pinned
      ])
