-- ===== src/Deploy/Network/Owners.antt =====
-- The cards that own a MAC address in rust/crates/hbird-cli/src/commands/deploy_cluster.rs.
use hummingbird_k8s.Base.{
  Bool, true, false, List, [], ◌∷◌, ◌≡◌, refl, sym, ◌∙◌, arith, none, some, length, All,
  if◌then◌else◌,
}
use hummingbird_k8s.Text.{Text, eq, to_ascii_lowercase}
use hummingbird_k8s.Update.Plan.{NameMap, get}
use hummingbird_k8s.Update.FromArgs.Addresses.{insert}
use hummingbird_k8s.Update.FromArgs.Maps.{get-insert}
use hummingbird_k8s.Deploy.Plan.{Plan}
use hummingbird_k8s.Deploy.Macs.{PrimaryMacs}
use hummingbird_k8s.Deploy.Macs.Distinct.{Differs}
use hummingbird_k8s.Deploy.Network.{primary_by_mac, owners}

-- No entry of the map, nor of what it was inserted into.
record Absent (k key : Text) (o : NameMap) : Type 0 where
  differ : eq k key ≡ false
  before : get key o ≡ none

absent : (k v key : Text) (o : NameMap) → get key (insert k v o) ≡ none → Absent k key o
absent k v key o h = go (eq k key) refl (sym (get-insert key k v o) ∙ h)
  where
    go : (b : Bool) → eq k key ≡ b → (if b then some v else get key o) ≡ none → Absent k key o
    go true e n = absurd cc
    go false e n = record { differ = e; before = n }

record Unowned (m : Text) (ms : List Text) (o : NameMap) : Type 0 where
  differ : All (Differs m) ms
  before : get (to_ascii_lowercase m) o ≡ none

owners-Unowned :
    (m : Text) (ms ws : List Text) (o : NameMap)
    → length ms ≡ length ws
    → get (to_ascii_lowercase m) (owners ms ws o) ≡ none
    → Unowned m ms o
unfolding owners
owners-Unowned m [] ws o e h = record { differ = tt; before = h }
owners-Unowned m (x ∷ ms) [] o e h = absurd (ground arith)
owners-Unowned m (x ∷ ms) (w ∷ ws) o e h =
    let u = owners-Unowned m ms ws (insert (to_ascii_lowercase x) w o) (ground arith) h in
    let a = absent (to_ascii_lowercase x) w (to_ascii_lowercase m) o u.before in
    record { differ = (a.differ, u.differ); before = a.before }

pub primary_by_mac-Differs :
    (p : Plan) (macs : PrimaryMacs) (ms : List Text)
    → length macs.workers ≡ length p.worker_names
    → All (λ m. get (to_ascii_lowercase m) (primary_by_mac p macs) ≡ none) ms
    → All (λ m. All (Differs m) (macs.cp ∷ macs.workers)) ms
unfolding primary_by_mac
primary_by_mac-Differs p macs [] e h = tt
primary_by_mac-Differs p macs (m ∷ ms) e (n, h) =
    let u =
      owners-Unowned m macs.workers p.worker_names
        (insert (to_ascii_lowercase macs.cp) p.cp_name []) e n in
    let a = absent (to_ascii_lowercase macs.cp) p.cp_name (to_ascii_lowercase m) [] u.before in
    ((a.differ, u.differ), primary_by_mac-Differs p macs ms e h)
