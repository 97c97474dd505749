-- ===== src/Agent.antt =====
-- crates/sshwarden-agent/src/agent.rs: the agent's keystore, its flags, and the requests that it
-- puts to the host application. Channels are seen from the agent: whether a send succeeds and the
-- answers that arrive on the broadcast channel, up to its first receive error, are arguments.
pub mod Keystore
pub mod Requests
pub mod History
mod Tests
use sshwarden.Base.{
  ℕ, ◌+◌, ◌%◌, ◌^◌, Bool, true, false, not, List, [], ◌∷◌, map, Option, none, some, ◌==◌,
  if◌then◌else◌, is_some, Text, Map, insert, length, retain, Result, ok, err, codes, text_eq,
}
use sshwarden.RequestParser.{
  OperationKind, ssh_authentication, SshAgentSignRequest, ssh_sig_request, sign_request,
  operation_kind, parse_request,
}

-- The crate `ssh_key`: a parsed private key is kept as opaque text.
pub record SshKeyLib : Type 0 where
  -- `PrivateKey::from_openssh`
  pub from_openssh : Text → Option Text
  -- `private_key.public_key().to_bytes()`
  pub public_key_bytes : Text → Option Text
  -- `PublicKey::from_openssh` and then `to_bytes`
  pub public_from_openssh : Text → Option Text

pub record SshAgentUiRequest : Type 0 where
  pub request_id : ℕ
  pub cipher_id : Option Text
  pub process_name : Text
  pub pid : ℕ
  pub is_list : Bool
  pub namespace : Option Text
  pub operation_kind : OperationKind
  pub is_forwarding : Bool

pub record SshWardenKey : Type 0 where
  pub private_key : Option Text
  pub public_key_bytes : Text
  pub name : Text
  pub cipher_uuid : Text

pub record PeerInfo : Type 0 where
  pub pid : ℕ
  pub process_name : Text
  pub is_forwarding : Bool
  pub host_key : Text

-- `SessionBindResult` of the crate `bitwarden_russh`.
pub data SessionBindResult : Type 0 where
  success : Bool → Text → SessionBindResult
  signature_failure : SessionBindResult

pub record SshWardenAgent : Type 0 where
  pub keystore : Map SshWardenKey
  pub cancelled : Bool
  pub next_request_id : ℕ
  pub needs_unlock : Bool
  pub is_running : Bool

-- A vault item as it is handed to the agent: the key (private PEM or public OpenSSH line), the
-- name and the vault item id.
abbrev pub KeyTuple : Type 0
KeyTuple = Text × Text × Text

abbrev pub u32_mod : ℕ
u32_mod = 2 ^ 32

unfoldable pub new : SshWardenAgent
new = record {
  keystore = [];
  cancelled = false;
  next_request_id = 0;
  needs_unlock = true;
  is_running = false;
}

-- `fetch_add` on the atomic wraps.
unfoldable pub get_request_id : SshWardenAgent → SshWardenAgent × ℕ
get_request_id a =
    if a.is_running
    then (record a { next_request_id = (a.next_request_id + 1) % u32_mod }, a.next_request_id)
    else (a, 0)

-- The receive loop: answers to other requests are passed over, and the end of the stream denies.
unfoldable pub await_response : ℕ → List (ℕ × Bool) → Bool
await_response request_id [] = false
await_response request_id ((id, response) ∷ later) =
    if id == request_id then response else await_response request_id later

-- What a call does: the agent behind it, the request shown to the host application, and the answer.
pub record Outcome : Type 0 where
  pub agent : SshWardenAgent
  pub shown : Option SshAgentUiRequest
  pub approved : Bool

abbrev denied : SshWardenAgent → Outcome
denied a = record { agent = a; shown = none; approved = false }

-- Sends a request and waits for its answer; a closed channel denies.
ask : SshWardenAgent → SshAgentUiRequest → Bool → List (ℕ × Bool) → Outcome
ask a request sent responses =
    if sent
    then record {
      agent = a;
      shown = some request;
      approved = await_response request.request_id responses;
    }
    else denied a

abbrev pub namespace_of : SshAgentSignRequest → Option Text
namespace_of (ssh_sig_request namespace) = some namespace
namespace_of sign_request = none

unfoldable pub confirm :
    SshWardenAgent → SshWardenKey → Text → PeerInfo → Bool → List (ℕ × Bool) → Outcome
unfolding ask get_request_id
confirm a ssh_key payload info sent responses =
    if not a.is_running
    then denied a
    else let (a', request_id) = get_request_id a in
      elim (parse_request payload) [
        | err e ↦ denied a'
        | ok request_data ↦
            ask a'
              (record {
                request_id = request_id;
                cipher_id = some ssh_key.cipher_uuid;
                process_name = info.process_name;
                pid = info.pid;
                is_list = false;
                namespace = namespace_of request_data;
                operation_kind = operation_kind request_data;
                is_forwarding = info.is_forwarding;
              })
              sent responses
      ]

unfoldable pub can_list : SshWardenAgent → PeerInfo → Bool → List (ℕ × Bool) → Outcome
unfolding ask get_request_id
can_list a info sent responses =
    if not a.needs_unlock
    then record { agent = a; shown = none; approved = true }
    else let (a', request_id) = get_request_id a in
      ask a'
        (record {
          request_id = request_id;
          cipher_id = none;
          process_name = info.process_name;
          pid = info.pid;
          is_list = true;
          namespace = none;
          operation_kind = ssh_authentication;
          is_forwarding = info.is_forwarding;
        })
        sent responses

pub set_sessionbind_info : SessionBindResult → PeerInfo → PeerInfo
set_sessionbind_info (success forwarding key) info = record info {
  is_forwarding = forwarding;
  host_key = key;
}
set_sessionbind_info signature_failure info = info

unfoldable pub stop : SshWardenAgent → SshWardenAgent
stop a =
    if a.is_running then record a { is_running = false; cancelled = true; keystore = [] } else a

pub data AgentError : Type 0 where
  not_running : AgentError

-- A key that can be parsed, with the bytes of its public key.
unfoldable pub parse_key_safe : SshKeyLib → Text → Option (Text × Text)
parse_key_safe lib pem = elim (lib.from_openssh pem) [
  | none ↦ none
  | some key ↦ elim (lib.public_key_bytes key) [ none ↦ none | some bytes ↦ some (key, bytes) ]
]

-- One round of the loop of `set_keys`: a key that does not parse is skipped.
unfoldable pub load_key : SshKeyLib → Map SshWardenKey → KeyTuple → Map SshWardenKey
load_key lib keystore (pem, key_name, cipher_id) = elim (parse_key_safe lib pem) [
  | none ↦ keystore
  | some (key, bytes) ↦
      insert bytes
        (record {
          private_key = some key;
          public_key_bytes = bytes;
          name = key_name;
          cipher_uuid = cipher_id;
        })
        keystore
]

unfoldable pub load_keys : SshKeyLib → Map SshWardenKey → List KeyTuple → Map SshWardenKey
unfolding load_key
load_keys lib keystore [] = keystore
load_keys lib keystore (k ∷ ks) = load_keys lib (load_key lib keystore k) ks

unfoldable pub set_keys :
    SshKeyLib → SshWardenAgent → List KeyTuple → Result AgentError SshWardenAgent
unfolding load_keys
set_keys lib a new_keys =
    if not a.is_running
    then err not_running
    else ok (record a { keystore = load_keys lib [] new_keys; needs_unlock = true })

unfoldable pub load_identity : SshKeyLib → Map SshWardenKey → KeyTuple → Map SshWardenKey
load_identity lib keystore (public_key_openssh, key_name, cipher_id) =
    elim (lib.public_from_openssh public_key_openssh) [
      | none ↦ keystore
      | some bytes ↦
          insert bytes
            (record {
              private_key = none;
              public_key_bytes = bytes;
              name = key_name;
              cipher_uuid = cipher_id;
            })
            keystore
    ]

unfoldable pub load_identities : SshKeyLib → Map SshWardenKey → List KeyTuple → Map SshWardenKey
unfolding load_identity
load_identities lib keystore [] = keystore
load_identities lib keystore (k ∷ ks) = load_identities lib (load_identity lib keystore k) ks

unfoldable pub set_public_identities :
    SshKeyLib → SshWardenAgent → List KeyTuple → Result AgentError SshWardenAgent
unfolding load_identities
set_public_identities lib a identities =
    if not a.is_running
    then err not_running
    else ok (record a { keystore = load_identities lib [] identities; needs_unlock = false })

unfoldable pub forget_private : Text × SshWardenKey → Text × SshWardenKey
forget_private (bytes, key) = (bytes, record key { private_key = none })

unfoldable pub lock : SshWardenAgent → Result AgentError SshWardenAgent
unfolding forget_private
lock a =
    if not a.is_running
    then err not_running
    else ok (record a { keystore = map forget_private a.keystore; needs_unlock = false })

unfoldable pub clear_keys : SshWardenAgent → SshWardenAgent
clear_keys a = record a { keystore = []; needs_unlock = true }

unfoldable pub clear_needs_unlock : SshWardenAgent → SshWardenAgent
clear_needs_unlock a = record a { needs_unlock = false }

unfoldable pub set_running : SshWardenAgent → Bool → SshWardenAgent
set_running a value = record a { is_running = value }

unfoldable pub key_count : SshWardenAgent → ℕ
key_count a = length a.keystore

unfoldable pub can_sign : Text × SshWardenKey → Bool
can_sign (bytes, key) = is_some key.private_key

unfoldable pub signable_key_count : SshWardenAgent → ℕ
unfolding can_sign
signable_key_count a = length (retain can_sign a.keystore)

-- The calls that the daemon makes on the agent.
pub data AgentCall : Type 0 where
  sets_keys sets_identities : List KeyTuple → AgentCall
  locks clears stops clears_needs_unlock : AgentCall
  sets_running : Bool → AgentCall
  confirms : SshWardenKey → Text → PeerInfo → Bool → List (ℕ × Bool) → AgentCall
  lists : PeerInfo → Bool → List (ℕ × Bool) → AgentCall

-- A call that fails leaves the agent as it was.
abbrev pub after : SshWardenAgent → Result AgentError SshWardenAgent → SshWardenAgent
after a (ok a') = a'
after a (err e) = a

unfoldable pub step : SshKeyLib → SshWardenAgent → AgentCall → SshWardenAgent
step lib a (sets_keys ks) = after a (set_keys lib a ks)
step lib a (sets_identities ks) = after a (set_public_identities lib a ks)
step lib a locks = after a (lock a)
step lib a clears = clear_keys a
step lib a stops = stop a
step lib a clears_needs_unlock = clear_needs_unlock a
step lib a (sets_running value) = set_running a value
step lib a (confirms key payload info sent responses) =
    (confirm a key payload info sent responses).agent
step lib a (lists info sent responses) = (can_list a info sent responses).agent

unfoldable pub run : SshKeyLib → SshWardenAgent → List AgentCall → SshWardenAgent
run lib a [] = a
run lib a (c ∷ cs) = run lib (step lib a c) cs
