-- ===== src/Etcd/Rotation/Diagram.antt =====
-- The diagram of a key rotation, and the runs of `run_rotate_key` as paths of it.
use hummingbird_k8s.Base.{ℕ, [], ◌∷◌, ◌≡◌, ok, err}
use hummingbird_k8s.Text.{Text}
use hummingbird_k8s.Ssh.Errors.{RunOutput}
use hummingbird_k8s.Ssh.Errors as Ssh
use hummingbird_k8s.Etcd.Keys.{insert_primary_key, drop_non_primary_keys}
use hummingbird_k8s.Etcd.Site.{Site, History, Event, slept, asked}
use hummingbird_k8s.Etcd.Rotation.{
  fetch_event, upload_event, install_event, healthz_event, reencrypt_event, verify_event,
}

-- How far the rotation has come, with the configuration at hand.
pub data Phase : Type 0 where
  untouched : Phase
  fetched dual_staged dual_active dual_healthy rewritten : Text → Phase
  single_staged single_active single_healthy : Text → Phase
  verified : Phase

abbrev pub Answered : Site → History → Event → Type 0
Answered site h e = (out : RunOutput) × (site.respond h e ≡ ok out)

-- The commands that lead from phase to phase. The configuration without the old keys is uploaded
-- only where every row has been rewritten under a healthy API server that has the new key.
pub data Advances (site : Site) (h : History) : Phase → Event → Phase → Type 0 where
  fetches :
      (out : RunOutput)
      → site.respond h fetch_event ≡ ok out
      → Advances site h untouched fetch_event (fetched out.stdout)
  stages_dual :
      {before dual : Text} (name secret : Text)
      → insert_primary_key before name secret ≡ ok dual
      → Answered site h (upload_event dual)
      → Advances site h (fetched before) (upload_event dual) (dual_staged dual)
  installs_dual :
      {dual : Text}
      → Answered site h install_event
      → Advances site h (dual_staged dual) install_event (dual_active dual)
  finds_healthy :
      {dual : Text}
      → Answered site h healthz_event
      → Advances site h (dual_active dual) healthz_event (dual_healthy dual)
  rewrites :
      {dual : Text}
      → Answered site h reencrypt_event
      → Advances site h (dual_healthy dual) reencrypt_event (rewritten dual)
  stages_single :
      {dual single : Text}
      → drop_non_primary_keys dual ≡ ok single
      → Answered site h (upload_event single)
      → Advances site h (rewritten dual) (upload_event single) (single_staged single)
  installs_single :
      {single : Text}
      → Answered site h install_event
      → Advances site h (single_staged single) install_event (single_active single)
  finds_single_healthy :
      {single : Text}
      → Answered site h healthz_event
      → Advances site h (single_active single) healthz_event (single_healthy single)
  verifies :
      {single : Text} (name : Text)
      → Answered site h (verify_event name)
      → Advances site h (single_healthy single) (verify_event name) verified

-- A history that follows the diagram: questions and pauses stay in their phase, and so does the
-- first command that fails.
pub data PathOf (site : Site) : History → Phase → Type 0 where
  begin : PathOf site [] untouched
  asks :
      {h : History} {p : Phase} (prompt : Text) → PathOf site h p → PathOf site (asked prompt ∷ h) p
  waits : {h : History} {p : Phase} (n : ℕ) → PathOf site h p → PathOf site (slept n ∷ h) p
  passes :
      {h : History} {p q : Phase} {e : Event}
      → PathOf site h p
      → Advances site h p e q
      → PathOf site (e ∷ h) q

-- A path, perhaps ended by one command that failed.
pub data RunOf (site : Site) : History → Type 0 where
  stops : {h : History} {p : Phase} → PathOf site h p → RunOf site h
  fails :
      {h : History} {p : Phase} (e : Event) (x : Ssh.Error)
      → PathOf site h p
      → site.respond h e ≡ err x
      → RunOf site (e ∷ h)
