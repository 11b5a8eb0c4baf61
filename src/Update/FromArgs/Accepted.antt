-- ===== src/Update/FromArgs/Accepted.antt =====
-- The plans that `Plan::from_args` accepts.
use mathlib.Core.Path.{subst}
use hummingbird_k8s.Base.{
  ℕ, ◌<◌, Bool, true, false, ◌&&◌, ltb, List, [], ◌≡◌, refl, arith, Option, none, some, Result, ok,
  err, if◌then◌else◌, All, ok-injective, Ensures, Ensures-bind,
}
use hummingbird_k8s.Text.{Text}
use hummingbird_k8s.Config.Build.{ClusterConfig, resolved_worker_names}
use hummingbird_k8s.Virt.Remote.{Client, Sent}
use hummingbird_k8s.Update.Plan.{Plan, Timeouts, NameMap}
use hummingbird_k8s.Update.Run.Records.{IsKnown}
use hummingbird_k8s.Update.FromArgs.{
  from_args, check_flags, check_start_from, names_one, parse_overrides, build_plan, after_ips,
}
use hummingbird_k8s.Update.FromArgs.Addresses.{
  Args, PlanError, unwrap_or, is_some, workers_only_and_node, node_and_start_from,
  parallel_not_positive, unknown_start_from, resolve_ips,
}
use hummingbird_k8s.Update.FromArgs.Maps.{HasIp}
use hummingbird_k8s.Update.FromArgs.Ips.{Knows, resolve_ips-Knows}

-- What holds of the command line and the configuration of an accepted plan.
pub record IsAccepted (args : Args) (config : ClusterConfig) (plan : Plan) : Type 0 where
  pub known : All (IsKnown plan) plan.worker_names
  pub parallel : 0 < plan.parallel
  pub workers : plan.worker_names ≡ resolved_worker_names config
  pub one_mode : (plan.workers_only && is_some plan.node_filter) ≡ false
  pub one_start : (is_some plan.node_filter && is_some plan.start_from) ≡ false
  pub starts : (sf : Text) → plan.start_from ≡ some sf → names_one plan.worker_names sf ≡ true
  pub jump_host : plan.kvm_host ≡ args.kvm_host

-- What `check_flags` promises.
record FlagsOk (args : Args) (parallel : ℕ) : Type 0 where
  positive : 0 < parallel
  one_mode : (args.workers_only && is_some args.node) ≡ false
  one_start : (is_some args.node && is_some args.start_from) ≡ false

check_flags-FlagsOk : (args : Args) → Ensures (FlagsOk args) (check_flags args)
unfolding check_flags
check_flags-FlagsOk args =
    go (args.workers_only && is_some args.node) (is_some args.node && is_some args.start_from)
      (ltb (unwrap_or args.parallel 1) 1) refl refl refl
  where
    parallel : ℕ
    parallel = unwrap_or args.parallel 1

    go :
        (a b c : Bool)
        → (args.workers_only && is_some args.node) ≡ a
        → (is_some args.node && is_some args.start_from) ≡ b
        → ltb parallel 1 ≡ c
        → Ensures (FlagsOk args) (
            if a
            then err workers_only_and_node
            else if b
            then err node_and_start_from
            else if c
            then err (parallel_not_positive parallel)
            else ok parallel)
    go true b c e f g = record { on_ok = λ n h. absurd cc }
    go false true c e f g = record { on_ok = λ n h. absurd cc }
    go false false true e f g = record { on_ok = λ n h. absurd cc }
    go false false false e f g = record {
      on_ok = λ n h. record {
        positive = subst (λ m. 0 < m) (ok-injective h) (ground (arith, g));
        one_mode = e;
        one_start = f;
      };
    }

check_start_from-some :
    (o : Option Text) (ws : List Text) (u : Unit {0}) (sf : Text)
    → check_start_from o ws ≡ ok u
    → o ≡ some sf
    → names_one ws sf ≡ true
unfolding check_start_from
check_start_from-some none ws u sf e h = absurd cc
check_start_from-some (some s) ws u sf e h =
    subst (λ t. names_one ws t ≡ true) same (go (names_one ws s) refl e)
  where
    same : s ≡ sf
    same = cc

    go :
        (b : Bool)
        → names_one ws s ≡ b
        → (if b then ok tt else err (unknown_start_from s)) ≡ ok u
        → names_one ws s ≡ true
    go true f g = f
    go false f g = absurd cc

build_plan-IsAccepted :
    (args : Args) (config : ClusterConfig) (timeouts : Timeouts) (parallel : ℕ) (cp_ip : Text)
    (ips : NameMap)
    → FlagsOk args parallel
    → All (HasIp ips) (resolved_worker_names config)
    → Ensures (IsAccepted args config) (build_plan args config timeouts parallel (cp_ip, ips))
unfolding build_plan
build_plan-IsAccepted args config timeouts parallel cp_ip ips flags known =
    Ensures-bind
      (λ _.
        (sf : Text)
        → args.start_from ≡ some sf
        → names_one (resolved_worker_names config) sf ≡ true)
      (check_start_from args.start_from (resolved_worker_names config)) _
      (record { on_ok = λ u e sf. check_start_from-some args.start_from _ u sf e })
      (λ u starts.
        Ensures-bind (λ _. Unit {0})
          (parse_overrides config.cp_name (resolved_worker_names config) args.node_name_override [])
          _ (record { on_ok = λ m e. tt })
          (λ overrides t. record {
            on_ok = λ plan e. subst (IsAccepted args config) (ok-injective e) (record {
              known = known;
              parallel = flags.positive;
              workers = refl;
              one_mode = flags.one_mode;
              one_start = flags.one_start;
              starts = starts;
              jump_host = refl;
            });
          }))

-- By the result of `from_args`.
abbrev pub Accepts : Args → ClusterConfig → Result PlanError Plan × Sent → Type 0
Accepts args config (err e, sent) = Unit
Accepts args config (ok plan, sent) = IsAccepted args config plan

-- Every plan that is accepted has an address for each of its workers, which are those of the
-- configuration, a parallelism of at least one, no two of the modes that exclude each other and, to
-- start from, a worker of its own; its jump host is that of the command line alone.
pub from_args-Accepts :
    (args : Args) (config : ClusterConfig) (timeouts : Timeouts) (client : Client) (sent : Sent)
    → Accepts args config (from_args args config timeouts client sent)
unfolding from_args
from_args-Accepts args config timeouts client sent =
    go (check_flags args) (check_flags-FlagsOk args) (resolve_ips args config ws client sent)
      (resolve_ips-Knows args config ws client sent)
  where
    ws : List Text
    ws = resolved_worker_names config

    by_result :
        (r : Result PlanError Plan) (s : Sent)
        → Ensures (IsAccepted args config) r
        → Accepts args config (r, s)
    by_result (err e) s h = tt
    by_result (ok plan) s h = h.on_ok plan refl

    after :
        (parallel : ℕ)
        → FlagsOk args parallel
        → (p : Result PlanError (Text × NameMap) × Sent) → Knows ws p
        → Accepts args config (after_ips args config timeouts parallel p)
    after parallel flags (err e, s) k = tt
    after parallel flags (ok (cp_ip, ips), s) k =
        by_result _ s (build_plan-IsAccepted args config timeouts parallel cp_ip ips flags k)

    go :
        (r : Result PlanError ℕ)
        → Ensures (FlagsOk args) r
        → (p : Result PlanError (Text × NameMap) × Sent) → Knows ws p
        → Accepts args config (elim r as (λ _. Result PlanError Plan × Sent) [
          | err e ↦ (err e, sent)
          | ok parallel ↦ after_ips args config timeouts parallel p
        ])
    go (err e) flags p k = tt
    go (ok parallel) flags p k = after parallel (flags.on_ok parallel refl) p k
