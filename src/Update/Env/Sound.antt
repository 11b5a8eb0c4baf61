-- ===== src/Update/Env/Sound.antt =====
-- The values that `Timeouts::from_env` accepts.
use mathlib.Core.Path.{subst}
use hummingbird_k8s.Base.{
  ℕ, ◌≤◌, ◌<◌, Bool, true, false, [], ◌∷◌, ◌≡◌, ◌≢◌, refl, ap, ◌∙◌, arith, ok, err, if◌then◌else◌,
  is_empty, all, Ensures, Ensures-bind, ok-injective,
}
use hummingbird_k8s.Text.{Text, text, is_ascii_digit, is_ascii_alphanumeric, is_ascii_alphabetic}
use hummingbird_k8s.Text.Numbers.{to_text, u32_max, parse_uint-le, parse_uint-positive}
use hummingbird_k8s.Update.Plan.{Timeouts}
use hummingbird_k8s.Update.Env.{
  Environment, unwrap_or, is_nonzero_digit, req_u32_strict_pos, req_u32_nonneg, strip_unit,
  req_drain, from_env, bad_drain,
}

-- A number of seconds that a loop can wait for.
pub record IsPositive (n : ℕ) : Type 0 where
  pub positive : 0 < n
  pub fits : n ≤ u32_max

-- Letters and digits, and not the empty text.
pub record IsDuration (s : Text) : Type 0 where
  pub not_empty : s ≢ []
  pub plain : all is_ascii_alphanumeric s ≡ true

req_u32_strict_pos-IsPositive : (name raw : Text) → Ensures IsPositive (req_u32_strict_pos name raw)
unfolding req_u32_strict_pos is_nonzero_digit
req_u32_strict_pos-IsPositive name [] = record { on_ok = λ a e. cc }
req_u32_strict_pos-IsPositive name (c ∷ s) = record {
  on_ok = λ n e. record {
    positive = ground (arith, parse_uint-positive u32_max c s n);
    fits = ground (arith, parse_uint-le u32_max (c ∷ s) n);
  };
}

req_u32_nonneg-le : (name raw : Text) → Ensures (λ n. n ≤ u32_max) (req_u32_nonneg name raw)
unfolding req_u32_nonneg
req_u32_nonneg-le name raw = record { on_ok = λ n e. ground (arith, parse_uint-le u32_max raw n) }

strip_unit-plain :
    (s : Text) → all is_ascii_digit (strip_unit s) ≡ true → all is_ascii_alphanumeric s ≡ true
unfolding strip_unit is_ascii_alphanumeric is_ascii_digit is_ascii_alphabetic
strip_unit-plain [] h = refl
strip_unit-plain (c ∷ []) h = ground arith
strip_unit-plain (c ∷ d ∷ s) h = ground (arith, strip_unit-plain (d ∷ s))

strip_unit-nil : is_empty (strip_unit []) ≡ true
unfolding strip_unit
strip_unit-nil = refl

req_drain-IsDuration : (raw : Text) → Ensures IsDuration (req_drain raw)
unfolding req_drain
req_drain-IsDuration raw = record {
  on_ok = λ s e.
      let (k, l) = accepted s e in
      subst IsDuration k (record {
        not_empty = λ p. l.0 (ap (λ r. is_empty (strip_unit r)) p ∙ strip_unit-nil);
        plain = strip_unit-plain raw l.1;
      });
}
  where
    decided :
        (empty digits : Bool) (s : Text)
        → (if empty then err (bad_drain raw) else if digits then ok raw else err (bad_drain raw))
          ≡ ok s
        → (raw ≡ s) × ((empty ≢ true) × (digits ≡ true))
    decided true digits s e = absurd cc
    decided false true s e = (ok-injective e, ((λ p. cc), refl))
    decided false false s e = absurd cc

    accepted :
        (s : Text)
        → req_drain raw ≡ ok s
        → (raw ≡ s)
          × ((is_empty (strip_unit raw) ≢ true) × (all is_ascii_digit (strip_unit raw) ≡ true))
    accepted s e = decided (is_empty (strip_unit raw)) (all is_ascii_digit (strip_unit raw)) s e

-- What `from_env` promises.
pub record IsSane (t : Timeouts) : Type 0 where
  pub drain : IsDuration t.drain
  pub ready : IsPositive t.ready
  pub daemonset : IsPositive t.daemonset
  pub apiserver : t.apiserver ≤ u32_max
  pub ssh : t.ssh ≤ u32_max
  pub ssh_drop : IsPositive t.ssh_drop
  pub inter_node_sleep : t.inter_node_sleep ≤ u32_max
  pub ssh_command : t.ssh_command ≤ u32_max

from_env-Ensures : (env : Environment) → Ensures IsSane (from_env env)
unfolding from_env
from_env-Ensures env =
    Ensures-bind IsDuration (req_drain (unwrap_or (text "5m") (env (text "DRAIN_TIMEOUT")))) _
      (req_drain-IsDuration _)
      λ drain d.
        Ensures-bind IsPositive
          (req_u32_strict_pos (text "READY_TIMEOUT")
            (unwrap_or (text "300") (env (text "READY_TIMEOUT"))))
          _ (req_u32_strict_pos-IsPositive _ _)
          λ ready r.
            Ensures-bind IsPositive
              (req_u32_strict_pos (text "DAEMONSET_TIMEOUT")
                (unwrap_or (to_text ready) (env (text "DAEMONSET_TIMEOUT"))))
              _ (req_u32_strict_pos-IsPositive _ _)
              λ daemonset s.
                Ensures-bind (λ n. n ≤ u32_max)
                  (req_u32_nonneg (text "APISERVER_TIMEOUT")
                    (unwrap_or (text "300") (env (text "APISERVER_TIMEOUT"))))
                  _ (req_u32_nonneg-le _ _)
                  λ apiserver a.
                    Ensures-bind (λ n. n ≤ u32_max)
                      (req_u32_nonneg (text "SSH_TIMEOUT")
                        (unwrap_or (text "300") (env (text "SSH_TIMEOUT"))))
                      _ (req_u32_nonneg-le _ _)
                      λ ssh b.
                        Ensures-bind IsPositive
                          (req_u32_strict_pos (text "SSH_DROP_TIMEOUT")
                            (unwrap_or (text "30") (env (text "SSH_DROP_TIMEOUT"))))
                          _ (req_u32_strict_pos-IsPositive _ _)
                          λ ssh_drop p.
                            Ensures-bind (λ n. n ≤ u32_max)
                              (req_u32_nonneg (text "INTER_NODE_SLEEP")
                                (unwrap_or (text "5") (env (text "INTER_NODE_SLEEP"))))
                              _ (req_u32_nonneg-le _ _)
                              λ inter_node_sleep i.
                                Ensures-bind (λ n. n ≤ u32_max)
                                  (req_u32_nonneg (text "SSH_COMMAND_TIMEOUT")
                                    (unwrap_or (text "3600") (env (text "SSH_COMMAND_TIMEOUT"))))
                                  _ (req_u32_nonneg-le _ _)
                                  λ ssh_command c. record {
                                    on_ok = λ t e.
                                        subst IsSane
                                          {x = record {
                                            drain = drain;
                                            ready = ready;
                                            daemonset = daemonset;
                                            apiserver = apiserver;
                                            ssh = ssh;
                                            ssh_drop = ssh_drop;
                                            inter_node_sleep = inter_node_sleep;
                                            ssh_command = ssh_command;
                                          }}
                                          (ok-injective e)
                                          (record {
                                            drain = d;
                                            ready = r;
                                            daemonset = s;
                                            apiserver = a;
                                            ssh = b;
                                            ssh_drop = p;
                                            inter_node_sleep = i;
                                            ssh_command = c;
                                          });
                                  }

-- Timeouts that are accepted from the environment fit in 32 bits, those of the readiness gates and
-- of the SSH drop are at least one second, and the timeout of the drain, which becomes a part of a
-- remote command, is not empty and has letters and digits only.
pub from_env-IsSane : (env : Environment) (t : Timeouts) → from_env env ≡ ok t → IsSane t
from_env-IsSane env t e = (from_env-Ensures env).on_ok t e
