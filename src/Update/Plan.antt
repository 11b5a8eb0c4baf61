-- ===== src/Update/Plan.antt =====
-- What the rolling update is about to do: `Timeouts`, `Plan` and the order of the workers.
use hummingbird_k8s.Base.{ℕ, Bool, false, List, [], ◌∷◌, ◌||◌, Option, none, some, if◌then◌else◌}
use hummingbird_k8s.Text.{Text, eq}

pub record Timeouts : Type 0 where
  pub drain : Text
  pub ready : ℕ
  pub daemonset : ℕ
  pub apiserver : ℕ
  pub ssh : ℕ
  pub ssh_drop : ℕ
  pub inter_node_sleep : ℕ
  pub ssh_command : ℕ

-- A `HashMap<String, String>`.
abbrev pub NameMap : Type 0
NameMap = List (Text × Text)

unfoldable pub get : Text → NameMap → Option Text
get k [] = none
get k ((k', v) ∷ m) = if eq k k' then some v else get k m

pub record Plan : Type 0 where
  pub config_path : Text
  pub cp_name : Text
  pub cp_ip : Text
  pub worker_names : List Text
  pub worker_ip_map : NameMap
  pub worker_k8s_name_map : NameMap
  pub cp_k8s_name : Text
  pub workers_only : Bool
  pub skip_drain : Bool
  pub skip_gates : Bool
  pub dry_run : Bool
  pub continue_on_error : Bool
  pub no_delete_emptydir_data : Bool
  pub node_filter : Option Text
  pub start_from : Option Text
  pub parallel : ℕ
  pub kvm_host : Option Text
  pub no_sudo : Bool
  pub timeouts : Timeouts

-- The loop of `workers_to_run`, with its flag `seen`.
unfoldable pub resume : Text → Bool → List Text → List Text
resume sf seen [] = []
resume sf seen (w ∷ ws) =
    let seen' = seen || eq w sf in let rest = resume sf seen' ws in if seen' then w ∷ rest else rest

unfoldable pub workers_to_run : Plan → List Text
unfolding resume
workers_to_run plan = elim plan.start_from [
  | none ↦ plan.worker_names
  | some sf ↦ resume sf false plan.worker_names
]
