-- ===== src/Config/Build/Usable.antt =====
-- The values of the fields of `ClusterConfig`, read by rust/crates/hbird-config/src/parser.rs.
use hummingbird_k8s.Base.{ℕ, ◌≤◌, [], ◌∷◌, ◌≡◌, ◌≢◌, arith, Option, none, some, ok, >>=-eq-ok}
use hummingbird_k8s.Text.{Text, text}
use hummingbird_k8s.Text.Numbers.{u32_max, parse_uint-le}
use hummingbird_k8s.Config.Data.{Value, scalar, array, RawMap}
use hummingbird_k8s.Config.Build.{ClusterConfig, parse_with_source, parse_str}
use hummingbird_k8s.Config.Tokenizer.{tokenize}
use hummingbird_k8s.Config.Build.Take.{required_scalar, scalar_or_default, u32_or_default}
use hummingbird_k8s.Config.Build.Sound.{Reads, build_config-Reads}

required_scalar-ne-nil :
    (k path : Text) (o : Option (ℕ × Value)) (v : Text) → required_scalar k path o ≡ ok v → v ≢ []
unfolding required_scalar
required_scalar-ne-nil k path none v h = cc
required_scalar-ne-nil k path (some (n, scalar [])) v h = cc
required_scalar-ne-nil k path (some (n, scalar (c ∷ s))) v h = λ e. cc
required_scalar-ne-nil k path (some (n, array s)) v h = cc

scalar_or_default-ne-nil :
    (k d : Text) (o : Option (ℕ × Value)) (v : Text)
    → d ≢ []
    → scalar_or_default k d o ≡ ok v
    → v ≢ []
unfolding scalar_or_default
scalar_or_default-ne-nil k d none v ne h = λ e. ne cc
scalar_or_default-ne-nil k d (some (n, scalar [])) v ne h = λ e. ne cc
scalar_or_default-ne-nil k d (some (n, scalar (c ∷ s))) v ne h = λ e. cc
scalar_or_default-ne-nil k d (some (n, array s)) v ne h = cc

u32_or_default-le :
    (k : Text) (d : ℕ) (o : Option (ℕ × Value)) (v : ℕ)
    → d ≤ u32_max
    → u32_or_default k d o ≡ ok v
    → v ≤ u32_max
unfolding u32_or_default
u32_or_default-le k d none v le h = ground arith
u32_or_default-le k d (some (n, scalar [])) v le h = ground arith
u32_or_default-le k d (some (n, scalar (c ∷ s))) v le h =
    ground (arith, parse_uint-le u32_max (c ∷ s) v)
u32_or_default-le k d (some (n, array s)) v le h = cc

-- What a deploy may rely on: the required texts and those with a default are not empty, and the
-- sizes fit the 32 bits of their type.
pub record IsUsable (c : ClusterConfig) : Type 0 where
  pub cp_name : c.cp_name ≢ []
  pub ssh_pubkey_file : c.ssh_pubkey_file ≢ []
  pub image_source : c.image_source ≢ []
  pub ghcr_tag : c.ghcr_tag ≢ []
  pub pool_dir : c.pool_dir ≢ []
  pub enable_cloud_init : c.enable_cloud_init ≤ u32_max
  pub cp_memory : c.cp_memory ≤ u32_max
  pub cp_vcpus : c.cp_vcpus ≤ u32_max
  pub worker_memory : c.worker_memory ≤ u32_max
  pub worker_vcpus : c.worker_vcpus ≤ u32_max

Reads-IsUsable : {raw : RawMap} {path : Text} {c : ClusterConfig} → Reads raw path c → IsUsable c
unfolding text
Reads-IsUsable r = record {
  cp_name = required_scalar-ne-nil _ _ _ _ r.cp_name;
  ssh_pubkey_file = required_scalar-ne-nil _ _ _ _ r.ssh_pubkey_file;
  image_source = scalar_or_default-ne-nil _ _ _ _ (λ e. cc) r.image_source;
  ghcr_tag = scalar_or_default-ne-nil _ _ _ _ (λ e. cc) r.ghcr_tag;
  pool_dir = scalar_or_default-ne-nil _ _ _ _ (λ e. cc) r.pool_dir;
  enable_cloud_init = u32_or_default-le _ _ _ _ (omega arith) r.enable_cloud_init;
  cp_memory = u32_or_default-le _ _ _ _ (omega arith) r.cp_memory;
  cp_vcpus = u32_or_default-le _ _ _ _ (omega arith) r.cp_vcpus;
  worker_memory = u32_or_default-le _ _ _ _ (omega arith) r.worker_memory;
  worker_vcpus = u32_or_default-le _ _ _ _ (omega arith) r.worker_vcpus;
}

-- A configuration that was read from a text has non-empty required texts, non-empty texts where
-- there is a default, and sizes within 32 bits.
pub parse_str-IsUsable : (input : Text) (c : ClusterConfig) → parse_str input ≡ ok c → IsUsable c
unfolding parse_str parse_with_source
parse_str-IsUsable input c h =
    let (raw, e, k) = >>=-eq-ok (tokenize input) _ h in
    Reads-IsUsable (build_config-Reads raw _ c k)
