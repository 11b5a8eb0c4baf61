-- ===== src/Update/FromArgs/Ips.antt =====
-- The resolution of the addresses.
use hummingbird_k8s.Base.{
  Bool, true, false, ◌==◌, List, [], ◌≡◌, refl, Option, none, some, Result, ok, err, if◌then◌else◌,
  length, All, ==_iff,
}
use hummingbird_k8s.Text.{Text}
use hummingbird_k8s.Config.Build.{ClusterConfig}
use hummingbird_k8s.Virt.Remote.{Client, Sent}
use hummingbird_k8s.Update.Plan.{NameMap}
use hummingbird_k8s.Update.FromArgs.Addresses.{
  Args, PlanError, after_cp, with_cp, resolve_ips, resolve_cp, worker_map, insert_zip,
  different_lengths, resolve_workers, filled, or_else, insert_all, placeholder,
}
use hummingbird_k8s.Update.FromArgs.Maps.{
  HasIp, insert_all-Covers, insert_zip-Covers, CoversIfOk, resolve_workers-CoversIfOk,
}

-- By the result of the resolution: every worker has an address.
abbrev pub Knows : List Text → Result PlanError (Text × NameMap) × Sent → Type 0
Knows ws (err e, sent) = Unit
Knows ws (ok (cp_ip, m), sent) = All (HasIp m) ws

worker_map-CoversIfOk :
    (kvm_host : Option Text) (config : ClusterConfig) (ws : List Text) (client : Client)
    (sent : Sent)
    → CoversIfOk ws [] (worker_map kvm_host config ws client sent)
unfolding worker_map
worker_map-CoversIfOk kvm_host config ws client sent = go config.worker_ips
  where
    sized :
        (ips : List Text) (b : Bool)
        → (length ips == length ws) ≡ b
        → CoversIfOk ws [] (
            if◌then◌else◌ {A = Result PlanError NameMap × Sent} b
              (ok (insert_zip ws ips []), sent)
              (err (different_lengths (length ips) (length ws)), sent))
    sized ips true e = insert_zip-Covers ws ips [] ((==_iff (length ips) (length ws)).0 e)
    sized ips false e = tt

    go :
        (o : Option (List Text))
        → CoversIfOk ws [] (elim o as (λ _. Result PlanError NameMap × Sent) [
          | some ips ↦
              if length ips == length ws
              then (ok (insert_zip ws ips []), sent)
              else (err (different_lengths (length ips) (length ws)), sent)
          | none ↦ resolve_workers kvm_host ws [] client sent
        ])
    go (some ips) = sized ips (length ips == length ws) refl
    go none = resolve_workers-CoversIfOk kvm_host ws [] client sent

with_cp-Knows :
    (cp_ip : Text) (ws : List Text) (p : Result PlanError NameMap × Sent)
    → CoversIfOk ws [] p
    → Knows ws (with_cp cp_ip p)
with_cp-Knows cp_ip ws (err e, sent) c = tt
with_cp-Knows cp_ip ws (ok m, sent) c = c.all

pub resolve_ips-Knows :
    (args : Args) (config : ClusterConfig) (ws : List Text) (client : Client) (sent : Sent)
    → Knows ws (resolve_ips args config ws client sent)
unfolding resolve_ips
resolve_ips-Knows args config ws client sent =
    go args.dry_run (resolve_cp kvm_host config client sent)
  where
    kvm_host : Option Text
    kvm_host = filled (or_else args.kvm_host config.kvm_host)

    after : (p : Result PlanError Text × Sent) → Knows ws (after_cp kvm_host config ws client p)
    after (err e, s) = tt
    after (ok cp_ip, s) =
        with_cp-Knows cp_ip ws _ (worker_map-CoversIfOk kvm_host config ws client s)

    go :
        (b : Bool) (p : Result PlanError Text × Sent)
        → Knows ws (
            if◌then◌else◌ {A = Result PlanError (Text × NameMap) × Sent} b
              (ok (placeholder, insert_all ws placeholder []), sent)
              (after_cp kvm_host config ws client p))
    go true p = (insert_all-Covers ws placeholder []).all
    go false p = after p
