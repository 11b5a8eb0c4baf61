-- ===== src/Update/Env.antt =====
-- `Timeouts::from_env`: the timeouts that the environment sets, with their defaults.
pub mod Sound
use hummingbird_k8s.Base.{
  ℕ, leb, Bool, true, false, ◌&&◌, ◌||◌, ◌==◌, List, [], ◌∷◌, ◌++◌, Option, none, some, Result, ok,
  err, ◌>>=◌, ok_or, if◌then◌else◌, is_empty, all,
}
use hummingbird_k8s.Text.{Text, text, is_ascii_digit}
use hummingbird_k8s.Text.Numbers.{parse_uint, to_text, u32_max}
use hummingbird_k8s.Update.Plan.{Timeouts}

-- The messages name the variable and show its value.
pub data EnvError : Type 0 where
  not_positive not_a_number : Text → Text → EnvError
  bad_drain : Text → EnvError

-- `std::env::var`, where a variable that is not valid Unicode counts as unset.
abbrev pub Environment : Type 0
Environment = Text → Option Text

unfoldable pub unwrap_or : Text → Option Text → Text
unwrap_or default none = default
unwrap_or default (some v) = v

unfoldable pub is_nonzero_digit : ℕ → Bool
is_nonzero_digit c = leb b'1' c && leb c b'9'

unfoldable pub req_u32_strict_pos : Text → Text → Result EnvError ℕ
unfolding is_nonzero_digit
req_u32_strict_pos name [] = err (not_positive name [])
req_u32_strict_pos name (c ∷ s) =
    if is_nonzero_digit c && all is_ascii_digit s
    then ok_or (parse_uint u32_max (c ∷ s)) (not_positive name (c ∷ s))
    else err (not_positive name (c ∷ s))

unfoldable pub req_u32_nonneg : Text → Text → Result EnvError ℕ
req_u32_nonneg name raw =
    if is_empty raw
    then err (not_a_number name raw)
    else if all is_ascii_digit raw
    then ok_or (parse_uint u32_max raw) (not_a_number name raw)
    else err (not_a_number name raw)

unfoldable pub is_unit : ℕ → Bool
is_unit c = c == b's' || c == b'm' || c == b'h'

-- The text before a unit at its end.
unfoldable pub strip_unit : Text → Text
unfolding is_unit
strip_unit [] = []
strip_unit (c ∷ []) = if is_unit c then [] else c ∷ []
strip_unit (c ∷ d ∷ s) = c ∷ strip_unit (d ∷ s)

unfoldable pub req_drain : Text → Result EnvError Text
req_drain raw =
    if is_empty (strip_unit raw)
    then err (bad_drain raw)
    else if all is_ascii_digit (strip_unit raw)
    then ok raw
    else err (bad_drain raw)

unfoldable pub from_env : Environment → Result EnvError Timeouts
unfolding unwrap_or
from_env env = do
  drain ← req_drain (unwrap_or (text "5m") (env (text "DRAIN_TIMEOUT")))
  ready ←
      req_u32_strict_pos (text "READY_TIMEOUT")
        (unwrap_or (text "300") (env (text "READY_TIMEOUT")))
  daemonset ←
      req_u32_strict_pos (text "DAEMONSET_TIMEOUT")
        (unwrap_or (to_text ready) (env (text "DAEMONSET_TIMEOUT")))
  apiserver ←
      req_u32_nonneg (text "APISERVER_TIMEOUT")
        (unwrap_or (text "300") (env (text "APISERVER_TIMEOUT")))
  ssh ← req_u32_nonneg (text "SSH_TIMEOUT") (unwrap_or (text "300") (env (text "SSH_TIMEOUT")))
  ssh_drop ←
      req_u32_strict_pos (text "SSH_DROP_TIMEOUT")
        (unwrap_or (text "30") (env (text "SSH_DROP_TIMEOUT")))
  inter_node_sleep ←
      req_u32_nonneg (text "INTER_NODE_SLEEP")
        (unwrap_or (text "5") (env (text "INTER_NODE_SLEEP")))
  ssh_command ←
      req_u32_nonneg (text "SSH_COMMAND_TIMEOUT")
        (unwrap_or (text "3600") (env (text "SSH_COMMAND_TIMEOUT")))
  ok (record {
    drain = drain;
    ready = ready;
    daemonset = daemonset;
    apiserver = apiserver;
    ssh = ssh;
    ssh_drop = ssh_drop;
    inter_node_sleep = inter_node_sleep;
    ssh_command = ssh_command;
  })
