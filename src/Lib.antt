-- ===== src/Lib.antt =====
-- Verification library of hummingbird-k8s: the Rust command line tool that builds and updates a
-- Kubernetes cluster of bootc virtual machines.
--
-- The program reads `cluster.local.conf` (crate hbird-config), reaches the KVM host and the nodes
-- over `ssh` (crates hbird-virt and hbird-ssh), and runs commands there; its largest part is the
-- rolling update of a cluster (`hbird update-cluster`). The files, by part:
--
--   Base, Base/*: natural numbers and their Boolean tests, list functions on them, and Rust's
--     `Result` with `?`. Text, Text/*: texts as lists of characters, with the functions of `str`
--     that the program calls, `parse::<u16>` and `to_string` among them.
--   Config/Data, Config/Tokenizer: rust/crates/hbird-config/src/error.rs and the tokenizer of
--     parser.rs (`tokenize`, `parse_scalar`, `parse_array`, `tokenize_array_body`, ...). Byte offsets
--     are the pieces of a split, and the loop over line indices is a recursion over the lines that
--     passes over as many lines as an array has consumed. The map is an association list.
--   Config/Build: `build_config` and the functions `take_*` of parser.rs, as actions on the map,
--     and `ClusterConfig` of lib.rs.
--   Virt/Data, Virt/Uri: rust/crates/hbird-virt/src/error.rs and uri.rs (`QemuSshUri`). The field
--     `instance` is named `driver`. Virt/Shell and Virt/Guard: `shell_quote` and
--     `reject_destructive_path` of lib.rs. Virt/Remote, Virt/Connection and Virt/Output: `Connection`
--     of lib.rs, each operation with the command that it sends over an `SshClient` and the reading of
--     the answer; Virt/Ipv4 is `Ipv4Addr` of the standard library.
--   Ssh/Options, Ssh/Errors: `SshOptions` and `Error` of rust/crates/hbird-ssh/src.
--   Update: rust/crates/hbird-cli/src/commands/update_cluster.rs. Update/Plan has `Plan`, `Timeouts`
--     and `workers_to_run`, and Update/Env `Timeouts::from_env`. Update/Net has the world: a network,
--     which is a function that answers a command by all that happened before it, and a history of
--     the commands sent and the pauses made, in a monad of actions that may fail. Update/Kubectl has
--     `cp_kubectl`; Update/Waits/Poll and Update/Waits/Gates the functions `wait_*` and
--     `capture_node_bootid`; Update/Bootc the timers and `bootc upgrade`; Update/Node/* `InFlight`
--     with its destructor, `update_worker` and `update_cp`; Update/Run `run_one_worker`,
--     `run_worker_batch` and `run`; Update/FromArgs `Plan::from_args` with the look-up of the nodes'
--     addresses over a connection. The workers of a batch are updated one after the other, as in the
--     code; README.md and docs/update-cluster.md describe them as concurrent.
--   Etcd: rust/crates/hbird-cli/src/commands/etcd.rs. Etcd/Keys rewrites the encryption configuration
--     (`find_aesgcm_keys_block`, `insert_primary_key`, `drop_non_primary_keys`), line by line with the
--     indices of the source; Etcd/Names has the pure helpers (dates, labels, base64); Etcd/Site the
--     world of the commands, and Etcd/Rotation `run_rotate_key` and its stages, with the diagram of a
--     rotation as a step relation in Etcd/Rotation/Diagram.
--   Deploy: rust/crates/hbird-cli/src/commands/deploy_cluster.rs. Deploy/Plan has `Plan`,
--     Deploy/Sha256 `sha256_hex` on lists of bytes, with words of 32 bits as numbers below 2 ^ 32,
--     Deploy/Macs `derive_primary_mac` and `resolve_primary_macs`, Deploy/Cidr `is_valid_cidr` and
--     `ip_in_cidr`, Deploy/Network `validate_extra_network`, whose maps and sets are lists, Deploy/Cards
--     the checks of the cards in `run`, one after the other, and
--     Deploy/Host the DHCP reservations and the probe of the network over a connection.
--   Preflight: rust/crates/hbird-cli/src/commands/preflight.rs, the table in Preflight/Matrix, the
--     reading of versions in Preflight/Versions, and `resolve_pins`, `classify` and
--     `verdict_exit_code` in Preflight.
--   Tests/*: runs of the functions and the theorems at concrete inputs.
--
-- Every function is executable. A polling loop counts its rounds down from its timeout in seconds,
-- which is enough, since each round adds at least one second to the elapsed time; the walk over the
-- batches counts down from the number of workers, which is enough when a batch is not empty. The
-- padding of a SHA-256 message adds at most 63 zeros, for which it has the fuel 64.
--
-- The network, the SSH client of a connection, the site of the etcd commands (the control plane that
-- answers, the operator, the clock and the random bytes) and the environment are the parameters, and
-- nothing is assumed of them beyond the hypotheses of a theorem. Not modelled: the reading of files,
-- the lock, the spawning of processes, log lines and dry runs that only print, the texts of operating
-- system errors, and the other commands of the tool. A failure is a
-- value with the arguments of its message, and the contexts that are put in front.
pub mod Base
pub mod Text
pub mod Config
pub mod Virt
pub mod Ssh
pub mod Update
pub mod Etcd
pub mod Deploy
pub mod Preflight
mod Tests
