-- ===== src/Update/FromArgs/Maps.antt =====
-- The addresses in the maps that `Plan::from_args` builds.
use hummingbird_k8s.Base.{
  Bool, true, false, List, [], ◌∷◌, ◌≡◌, refl, arith, Option, some, Result, ok, err, if◌then◌else◌,
  length, All,
}
use hummingbird_k8s.Text.{Text, eq}
use hummingbird_k8s.Text.Equality.{eq_iff, eq_refl}
use hummingbird_k8s.Update.Plan.{NameMap, get}
use hummingbird_k8s.Virt.Remote.{Client, Sent}
use hummingbird_k8s.Update.FromArgs.Addresses.{
  PlanError, insert, insert_all, insert_zip, resolve_workers, resolve_domain_ip, next_lookup,
}

-- The map has an address for the worker.
abbrev pub HasIp : NameMap → Text → Type 0
HasIp m w = (ip : Text) × (get w m ≡ some ip)

pub get-insert :
    (w k v : Text) (m : NameMap) → get w (insert k v m) ≡ (if eq k w then some v else get w m)
unfolding get insert
get-insert w k v [] = ground (arith, eq_iff k w, eq_iff w k)
get-insert w k v ((j, u) ∷ m) =
    ground (arith, get-insert w k v m, eq_iff k w, eq_iff w k, eq_iff w j, eq_iff j k, eq_iff j w)

HasIp-insert : (k v : Text) (m : NameMap) (w : Text) → HasIp m w → HasIp (insert k v m) w
HasIp-insert k v m w (ip, e) = rw (get-insert w k v m) (go (eq k w))
  where
    go : (b : Bool) → (i : Text) × ((if b then some v else get w m) ≡ some i)
    go true = (v, refl)
    go false = (ip, e)

HasIp-inserted : (k v : Text) (m : NameMap) → HasIp (insert k v m) k
HasIp-inserted k v m = (v, rw (get-insert k k v m, eq_refl k) refl)

-- The later map has an address for the workers, and for all that the earlier map had one for.
pub record Covers (ws : List Text) (m m' : NameMap) : Type 0 where
  pub keeps : (v : Text) → HasIp m v → HasIp m' v
  pub all : All (HasIp m') ws

Covers-cons :
    (w ip : Text) (ws : List Text) (m m' : NameMap)
    → Covers ws (insert w ip m) m'
    → Covers (w ∷ ws) m m'
Covers-cons w ip ws m m' c = record {
  keeps = λ v h. c.keeps v (HasIp-insert w ip m v h);
  all = (c.keeps w (HasIp-inserted w ip m), c.all);
}

nothing : (m : NameMap) → Covers [] m m
nothing m = record { keeps = λ v h. h; all = tt }

pub insert_all-Covers :
    (ws : List Text) (ip : Text) (m : NameMap) → Covers ws m (insert_all ws ip m)
unfolding insert_all
insert_all-Covers [] ip m = nothing m
insert_all-Covers (w ∷ ws) ip m = Covers-cons w ip ws m _ (insert_all-Covers ws ip (insert w ip m))

pub insert_zip-Covers :
    (ws ips : List Text) (m : NameMap) → length ips ≡ length ws → Covers ws m (insert_zip ws ips m)
unfolding insert_zip
insert_zip-Covers [] ips m e = nothing m
insert_zip-Covers (w ∷ ws) [] m e = absurd (ground arith)
insert_zip-Covers (w ∷ ws) (ip ∷ ips) m e =
    Covers-cons w ip ws m _ (insert_zip-Covers ws ips (insert w ip m) (ground arith))

-- By the result of the lookups.
abbrev pub CoversIfOk : List Text → NameMap → Result PlanError NameMap × Sent → Type 0
CoversIfOk ws m (err e, sent) = Unit
CoversIfOk ws m (ok m', sent) = Covers ws m m'

CoversIfOk-cons :
    (w ip : Text) (ws : List Text) (m : NameMap) (p : Result PlanError NameMap × Sent)
    → CoversIfOk ws (insert w ip m) p
    → CoversIfOk (w ∷ ws) m p
CoversIfOk-cons w ip ws m (err e, sent) c = tt
CoversIfOk-cons w ip ws m (ok m', sent) c = Covers-cons w ip ws m m' c

pub resolve_workers-CoversIfOk :
    (kvm_host : Option Text) (ws : List Text) (m : NameMap) (client : Client) (sent : Sent)
    → CoversIfOk ws m (resolve_workers kvm_host ws m client sent)
unfolding resolve_workers
resolve_workers-CoversIfOk kvm_host [] m client sent = nothing m
resolve_workers-CoversIfOk kvm_host (w ∷ ws) m client sent =
    go (resolve_domain_ip kvm_host w client sent)
      (λ ip sent'. resolve_workers-CoversIfOk kvm_host ws (insert w ip m) client sent')
  where
    go :
        (p : Result PlanError Text × Sent)
        → ((ip : Text) (sent' : Sent)
            → CoversIfOk ws
                (insert w ip m)
                (resolve_workers kvm_host ws (insert w ip m) client sent'))
        → CoversIfOk
            (w ∷ ws)
            m
            (next_lookup (λ ip. resolve_workers kvm_host ws (insert w ip m)) client p)
    go (err e, s) ih = tt
    go (ok ip, s) ih = CoversIfOk-cons w ip ws m _ (ih ip s)
