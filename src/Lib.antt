-- ===== src/Lib.antt =====
-- SSHWarden: an SSH agent whose keys come from a Bitwarden vault.
--
-- A daemon (src/daemon.rs) holds the state of the vault and an SSH agent. Commands reach it over a
-- control channel (src/control.rs), sign requests come from the agent (crates/sshwarden-agent) and are
-- answered after an unlock or a prompt (src/ui.rs), and the server reports changes that lead to a sync
-- (src/sync.rs). The decrypted keys live in memory only while the vault is unlocked; a local key cache
-- (src/cache.rs) keeps them encrypted on the disk under a key that a PIN or the platform's secret store
-- gives back (src/unlock.rs). The user binds keys to hosts (crates/sshwarden-config/src/bindings.rs).
--
-- Files:
--   Base: shared names, lists over native numbers, text as code points, UTF-8, results, maps.
--   RequestParser: crates/sshwarden-agent/src/request_parser.rs, `parse_request` and the kinds of
--     operation; a payload is a list of bytes.
--   Agent: crates/sshwarden-agent/src/agent.rs, the methods of `SshWardenAgent` as functions on a record;
--     channels are arguments (whether a send succeeds, the answers that arrive), and the crate ssh_key is
--     the record `SshKeyLib`. Children: Keystore, History, Requests.
--   PinLockout: src/control.rs (`PinFailureState`, `record_pin_attempt`) and src/unlock.rs
--     (`gate_pin_validator`); times are milliseconds given by the caller. Child: Guesses.
--   Bindings: crates/sshwarden-config/src/bindings.rs, the edits of `HostBindingsFile`; `BTreeMap` is an
--     association list with one entry for each key. Children: Patterns, Wellformed, Refinement, Locking
--     (`update_locked` as events of interleaved processes, whose state is the file, the holder of the
--     lock and how far each process is), Serial, and Waiting (`acquire_lock`, with fuel 201, since 200
--     sleeps of 50 milliseconds reach its deadline).
--   Config: crates/sshwarden-config/src/lib.rs, as it is built for Linux; paths are texts, the values of
--     the environment are Unicode, and the process-wide caches (`OnceLock`) are the record `Resolved`.
--     Locations, Directories, Resolutions and Layout say where the files are, Lookups runs several
--     lookups after each other, and Replace is the replacement of a file, which gives every state of the
--     disk in between. Other children: Segments, Environment, Endpoints. The loop that takes off a
--     repeated prefix has the text as fuel, since each round shortens it.
--   Naming: src/naming.rs; children Shell (src/shell.rs, src/commands/env.rs) and Targets
--     (src/ssh_target.rs, src/path_util.rs). Shell also says how each shell reads a word.
--   SshConfig: crates/sshwarden-config/src/ssh_config.rs and src/sshconfig.rs; what the type `Path` does is
--     the record `PathLib`. Quoting is the argument of an Include or IdentityFile line, Include
--     writes the Include line of the user's file and Remove removes it (proofs: Rounds, Included,
--     Written, Removed, Removal), and Snippet generates the managed file and imports the bindings a
--     user has edited in it (proofs: Lines, Reimport, Regenerated, Plain, Roundtrip).
--   Notifications: crates/sshwarden-api/src/notifications.rs, the variables of `run_message_loop` with what
--     happens to the socket as the input and what is sent to the daemon as the output, and the address of
--     the hub; in Frames, the length prefix of a frame, written with fuel 10, since ten groups of seven
--     bits hold 64 bits. Children: Throttle, Backoff, Address, Frames.
--     Messages is the reading of a frame, where a `usize` wraps as in a release build; Mirror is
--     src/runtime.rs, the daemon's copy of the connection's state, and Health its theorem.
--   Crypto: crates/sshwarden-api/src/crypto.rs; a text is its UTF-8 bytes, the cryptographic crates are the
--     record `CryptoLib`, and random bytes are arguments. EncString has the laws that the proofs assume of
--     the crates, Keys the keys and PINs, and Example crates that keep these laws. Vault/Primitives puts
--     these functions in the place of the vault's primitives.
--   Client: crates/sshwarden-api/src/client.rs and src/models.rs beside it; the server's answers are the
--     record `Server`. Children: Keys, Tokens.
--   Logging: src/logging.rs, with the two files and the place of the open one as the state. Children: Trail,
--     Size, Lost.
--   Vault: the daemon's shared state as one record, and the record `World` of what everything outside its
--     memory answers. Vault/Cache is src/cache.rs, Vault/Sync is src/sync.rs with `lock_vault`,
--     Vault/Unlock is src/unlock.rs, Vault/Unlocking and Vault/Control are the arms of
--     `handle_control_command` in src/control.rs, Vault/Signing is src/ui.rs, and Vault/Daemon the turns
--     of the main loop in src/daemon.rs. Proofs: Vault/Locked with its children, Vault/Approvals,
--     Vault/Secrets, Vault/PinUnlock, Vault/RoundTrip.
--   ControlProtocol: crates/sshwarden-agent/src/control.rs for platforms other than Windows; serde_json is
--     the record `Json`. Children: Commands (what src/main.rs sends), Connections.
--   PidFile: src/process.rs, the PID file and the claim on it, with the processes of the system as a record.
--     Children: Starts (interleaved claims), Running.
--   Each Tests file runs the definitions and the theorems on concrete inputs.
--
-- The vault is modelled as its code is built for Linux and macOS. Each step of the daemon runs to its
-- end before the next: a sign request that waits for a dialog while a command runs is not interleaved
-- with it. What the disk holds is not a state: a `World` says what is read, and whether a write
-- succeeds. The cryptographic primitives are fields of `World`; the laws that the round trips assume
-- of them are in `IsLawful`, and crypto.rs keeps them (Vault/Primitives). The restored session is a
-- reply of `World`. What a failed write leaves in the user's ssh configuration is not a state either:
-- the write of that file is not atomic. MessagePack, HTTP, JSON and TOML, the selector files, the
-- dialogs, the command line, the spawning of the daemon and its autostart entries are not modelled. The
-- starters that claim the PID file take turns a step at a time, and the table of processes does not
-- change meanwhile; a PID has ten digits at most, the rounds of its printing. Every other loop of the
-- source that is modelled runs over a list.
pub mod Base
pub mod RequestParser
pub mod Agent
pub mod PinLockout
pub mod Bindings
pub mod Notifications
pub mod Crypto
pub mod Client
pub mod Logging
pub mod Vault
pub mod Config
pub mod Naming
pub mod SshConfig
pub mod ControlProtocol
pub mod PidFile
