-- ===== src/Fleet/Order.antt =====
-- app.py: `compute_rollup` on the answers of a fan-out in any order, and its counts.
use nexus_controller.Prelude.{
  ℕ, suc, ◌+◌, ◌≤◌, ◌≡◌, refl, ap, ◌∙◌, List, [], ◌∷◌, arith, nat_eq, string_eq, pair_eq, length,
}
use mathlib.Core.List.{Permᴰ}
use nexus_controller.Envelope.{Envelope}
use nexus_controller.Fleet.{Rollup, no_hosts, count_host, count_hosts, compute_rollup}

-- Two roll-ups, field by field.
unfoldable pub plus : Rollup → Rollup → Rollup
plus r s = record {
  total = r.total + s.total;
  healthy = r.healthy + s.healthy;
  unreachable = r.unreachable + s.unreachable;
  disabled = r.disabled + s.disabled;
  alerts = r.alerts + s.alerts;
  degraded = r.degraded + s.degraded;
  services_down = r.services_down + s.services_down;
  storage_used = r.storage_used + s.storage_used;
  storage_size = r.storage_size + s.storage_size;
  vms = r.vms + s.vms;
  containers = r.containers + s.containers;
  updates_hosts = r.updates_hosts + s.updates_hosts;
  security_hosts = r.security_hosts + s.security_hosts;
  updates_pending = r.updates_pending + s.updates_pending;
  security_pending = r.security_pending + s.security_pending;
}

plus-swap : (r a b : Rollup) → plus (plus r a) b ≡ plus (plus r b) a
unfolding plus
plus-swap r a b = ground arith

plus-none : (r : Rollup) → plus r no_hosts ≡ r
unfolding plus
plus-none r = ground arith

count_host-plus : (r : Rollup) (e : Envelope) → count_host r e ≡ plus r (count_host no_hosts e)
unfolding count_host plus
count_host-plus r e = ground arith

count_host-swap :
    (r : Rollup) (a b : Envelope) → count_host (count_host r a) b ≡ count_host (count_host r b) a
count_host-swap r a b = ground (
  arith,
  count_host-plus (count_host r a) b,
  count_host-plus (count_host r b) a,
  count_host-plus r a,
  count_host-plus r b,
  plus-swap r (count_host no_hosts a) (count_host no_hosts b),
)

count_hosts-Perm :
    {xs ys : List Envelope} (r : Rollup) → Permᴰ xs ys → count_hosts r xs ≡ count_hosts r ys
unfolding count_hosts
count_hosts-Perm r Permᴰ.nil = refl
count_hosts-Perm r (Permᴰ.cons {b = b} {l₁ = l} e d) =
    ap (λ x. count_hosts (count_host r x) l) e ∙ count_hosts-Perm (count_host r b) d
count_hosts-Perm r (Permᴰ.swap {a = a} {b = b} {a' = c} {l = l} e f) =
    ap (λ s. count_hosts s l) (count_host-swap r a b)
    ∙ (ap (λ x. count_hosts (count_host (count_host r x) a) l) f
        ∙ ap (λ x. count_hosts (count_host (count_host r c) x) l) e)
count_hosts-Perm r (Permᴰ.trans d1 d2) = count_hosts-Perm r d1 ∙ count_hosts-Perm r d2

length-Perm : {xs ys : List Envelope} → Permᴰ xs ys → length xs ≡ length ys
length-Perm Permᴰ.nil = refl
length-Perm (Permᴰ.cons e d) = ap suc (length-Perm d)
length-Perm (Permᴰ.swap e f) = refl
length-Perm (Permᴰ.trans d1 d2) = length-Perm d1 ∙ length-Perm d2

abbrev with_total : ℕ → Rollup → Rollup
with_total n r = record r { total = n }

-- The roll-up of a fan-out is the same in whatever order the hosts have answered.
pub compute_rollup-Perm :
    (xs ys : List Envelope) → Permᴰ xs ys → compute_rollup xs ≡ compute_rollup ys
unfolding compute_rollup
compute_rollup-Perm xs ys d =
    ap (with_total (length xs)) (count_hosts-Perm no_hosts d)
    ∙ ap (λ n. with_total n (count_hosts no_hosts ys)) (length-Perm d)

-- What the counts of a roll-up owe each other, for a number of hosts.
abbrev pub IsConsistent : ℕ → Rollup → Type 0
IsConsistent n r =
    (r.healthy + r.unreachable + r.disabled ≡ n)
    × (r.degraded ≤ r.healthy)
    × (r.updates_hosts ≤ r.healthy)
    × (r.security_hosts ≤ r.updates_hosts)
    × (r.updates_hosts ≤ r.updates_pending)
    × (r.security_hosts ≤ r.security_pending)
    × (r.containers ≤ r.vms)

count_host-IsConsistent :
    (n : ℕ) (r : Rollup) (e : Envelope) → IsConsistent n r → IsConsistent (n + 1) (count_host r e)
unfolding count_host
count_host-IsConsistent n r e h = ground arith

count_hosts-IsConsistent :
    (n : ℕ) (r : Rollup) (es : List Envelope)
    → IsConsistent n r
    → IsConsistent (n + length es) (count_hosts r es)
unfolding count_hosts
count_hosts-IsConsistent n r [] h = ground arith
count_hosts-IsConsistent n r (e ∷ es) h =
    ground (
      arith,
      count_hosts-IsConsistent (n + 1) (count_host r e) es (count_host-IsConsistent n r e h),
    )

-- Each host is counted exactly once, as healthy, unreachable or paused; only healthy hosts count as
-- degraded or as having updates, of those with updates some have security updates, and each counts
-- with at least one; and the containers are among the guests.
pub compute_rollup-IsConsistent :
    (es : List Envelope) → IsConsistent (compute_rollup es).total (compute_rollup es)
unfolding compute_rollup
compute_rollup-IsConsistent es = ground (arith, count_hosts-IsConsistent 0 no_hosts es)
