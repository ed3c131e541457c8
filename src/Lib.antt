-- ===== src/Lib.antt =====
-- Credman: an offline credential vault whose secrets are used by agents under human approvals.
--
-- The program keeps one `Application` value: approved tasks, records with secret fields, grants of
-- records to other agents, remembered requests, private deliveries and an audit queue. A human
-- approves and revokes tasks. An agent mutates and reads records under a task, and each operation
-- goes through the trusted clock, the lookup of the task and the authorization. The durable owner
-- hands a copy of the application to each operation and publishes the result as an encrypted image
-- before it answers. Agents reach the owner through a broker, which admits them by sessions.
--
-- The parts, and the files that model them:
--   Base, Loops, Result, Exec: shared types, maps and sets, equality, `i64`, `Result` and the methods on
--     `&mut self` that may fail, which keep what was written before an error.
--   Types (src/agent/mod.rs): the data of the core, with the source's fields and constructors.
--   Clock (src/agent/mod.rs): `effective_time` and `clock`.
--   Policy (src/agent/mod.rs): the checks of `approve_task` and `revoke_task`, `task`, `record` (here
--     `find_record`), `can` and `authorize`, one function for each arm of its matches. Policy/Authority
--     describes `can` by relations, Policy/Admission what a passed authorization gives.
--   Generation (src/agent/mod.rs): `generation_index`, `sample_secret`, `classes_present`,
--     `generate_secret` and `generate_values`.
--   Application (src/agent/mod.rs): `approve_task`, `revoke_task`, `mutate`, `select`, `read_secret`,
--     `metadata`, `audit_events`. `mutate` is `clock`, then `plan` (its checks, which change nothing),
--     then `execute`. Application/Reach has the states that any operations lead to, Application/Frame
--     what they leave alone.
--   Bridge (src/agent_bridge.rs): `Sessions` with `issue`, `attach`, `admit`, `revoke`, `census`,
--     `live`, `permits`, and `frontend_deadline`. Bridge/Bounds has any sequence of calls.
--   Snapshot (src/agent/snapshot.rs): Compact has `compact`, loop by loop; Validate and Whole have
--     `validate`, Encoding `encode`, `decode` and `clock_only_difference`.
--   Storage (src/agent/storage.rs): `publish_with`, `commit`, `apply` and `create_from_app` over a
--     directory of a visible image and two gates; Storage/Reopen has `open` and `rekey`.
--     Storage/Sealed is this owner over Snapshot.
--   Storage/Recovery (src/agent/storage/recovery.rs, and `prepare_restored` of
--     src/agent/storage/backup.rs): `sanitize`, `transition`, `validate_pending` and `recover_at`, over
--     the same directory, with a `RecoveryWeather` for the answers of the system.
--   Bytes, Crypto (src/crypto.rs): big-endian words and a cursor; `KdfParams` and its ranges.
--   Storage/Header (src/agent/storage.rs): the bytes of an image, `seal_version` and `unseal`;
--     Storage/Gate: the bytes of a gate, which the owner and the recovery have as an `Intent`.
--   Storage/Backup (src/agent/storage/backup.rs): `encrypt_backup`, `decrypt_backup`,
--     `export_backup` and `restore_backup`.
--   Storage/Use (src/agent/storage/workflow.rs): `use_secret`, split at the call of the adapter: what
--     happens before it (`until_handoff`) and after its answer (`after_delivery`);
--     Storage/Answer joins the two.
--     Storage/Onward has what becomes of an application by operations, private uses, generations and
--     compactions in any order; Storage/Retry and Storage/Once are about it. Storage/Untried is about
--     the attempts before the call.
--   Tests: runs of the model and the theorems at concrete inputs.
--
-- What is outside the program is an argument. `Codec` stands for serde_json and SHA-256. `fresh` is
-- the identifier that `Uuid::new_v4` returns; in the sequences of operations it is not in use. The
-- random source is the list of its answers, each a filled buffer or a failure, and fails at its
-- end; `generate_secret` makes at most 128 attempts, as the code does, and no other loop needs
-- fuel. The answers of the system in a publication are a `Weather`: each call may fail, and a
-- failed rename may have replaced the image. `Images` is the interface of the owner to the snapshot
-- codec and to the encryption; nothing is assumed of it but, where a theorem says so, `ClockOnly`
-- (snapshots that differ in the clock alone have the same deliveries), `Sparing` (a compaction keeps
-- the attempts that are unfinished or in the retry window) and `Distinct` (no two applications are
-- encoded alike). Storage/Sealed, Storage/Untried and Snapshot/Difference prove them of Snapshot.
-- There `Json` is serde_json on a snapshot, of which it is assumed that it reads back what it
-- wrote. `unseal`, which decrypts and decodes an image (it stands in Storage/Header), and the
-- digest of an image are arguments of `open`, `rekey` and `recover_at`. `Forms` is serde_json on
-- the types that `transition` compares; it is assumed that it tells deliveries of different
-- records, actions or marks of dispatch apart. AES-GCM is a `Cipher`, of which it is assumed that
-- decryption undoes encryption and that a text grows by 16 bytes; Argon2 is a `Derivation` and its
-- own test of parameters an argument.
--
-- `Uuid` and the unsigned integers are natural numbers, with the wrap of `+= 1` on a `u64` written
-- out and the checks for `u64::MAX` as in the code; `i64` is an integer with saturating subtraction.
-- A map is a list of pairs with one entry for a key, a set a list of distinct elements; nothing
-- depends on the order in which they are walked. Zeroization and serde's formats are not modelled.
--
-- Not modelled: panics of the adapter or of the clock in `use_secret`, the views for the human
-- (src/agent/admin_view.rs), the broker and its protocols (src/agent_broker.rs, src/agent_ipc.rs,
-- src/agent_mcp.rs, src/agent_https.rs, src/agent_admin.rs), the words of a seed (src/crypto.rs)
-- and the command line. Sockets, files' permissions and locks are system calls. The sequences of
-- Application/Reach are without compaction, which the owner makes before an operation; those of
-- Storage/Onward have compactions too, and both are without recoveries, restores and key changes.
pub mod Base
pub mod Result
pub mod Exec
pub mod Bytes
pub mod Crypto
pub mod Loops
pub mod Types
pub mod Clock
pub mod Policy
pub mod Generation
pub mod Bridge
pub mod Application
pub mod Snapshot
pub mod Storage
mod Tests
