-- ===== src/Agent/Tests.antt =====
-- Concrete agents for crates/sshwarden-agent/src/agent.rs, with a key library that reads a key that
-- starts with the letter k and takes what follows for the public key.
use sshwarden.Base.{
  ℕ, ◌≡◌, ◌≢◌, ◌↔◌, refl, Bool, true, false, List, [], ◌∷◌, Option, none, some, arith, Text, codes,
  ◌==◌, if◌then◌else◌,
}
use sshwarden.Agent.{
  SshKeyLib, SshWardenKey, SshWardenAgent, PeerInfo, KeyTuple, sets_keys, sets_identities, locks,
  sets_running, lists, confirm, run, new, signable_key_count, get_request_id, await_response,
}
use sshwarden.RequestParser.{parse_request}
use sshwarden.Agent.Keystore.{IsConsistent, run-new-IsConsistent}
use sshwarden.Agent.History.{run-lock-signable}
use sshwarden.Agent.Requests.{IsApproved, confirm_approved, requests, get_request_id-distinct}

key_of : Text → Option Text
key_of [] = none
key_of (c ∷ cs) = if c == b'k' then some cs else none

abbrev lib : SshKeyLib
lib = record { from_openssh = key_of; public_key_bytes = λ k. some k; public_from_openssh = key_of }

abbrev keys : List KeyTuple
keys = (codes "k1", codes "work", codes "id1") ∷ (codes "k2", codes "home", codes "id2") ∷ []

abbrev work : SshWardenKey
work = record {
  private_key = some (codes "1");
  public_key_bytes = codes "1";
  name = codes "work";
  cipher_uuid = codes "id1";
}

abbrev running : SshWardenAgent
running = record {
  keystore = (codes "1", work) ∷ [];
  cancelled = false;
  next_request_id = 7;
  needs_unlock = true;
  is_running = true;
}

abbrev peer : PeerInfo
peer = record { pid = 1; process_name = codes "ssh"; is_forwarding = false; host_key = [] }

abbrev answers : List (ℕ × Bool)
answers = (6, false) ∷ (7, true) ∷ []

run-new-IsConsistent_example :
    IsConsistent lib (run lib new (sets_running true ∷ sets_keys keys ∷ locks ∷ [])).keystore
run-new-IsConsistent_example =
    run-new-IsConsistent lib (sets_running true ∷ sets_keys keys ∷ locks ∷ [])

run-lock-signable_example :
    signable_key_count (run lib running (locks ∷ sets_identities keys ∷ lists peer true [] ∷ []))
    ≡ 0
run-lock-signable_example =
    run-lock-signable lib running (sets_identities keys ∷ lists peer true [] ∷ []) refl
      (λ ks e. cc, (λ ks e. cc, tt))

confirm_approved_example :
    ((confirm running work (codes "data") peer true answers).approved ≡ true)
    ↔ IsApproved running (codes "data") true answers
confirm_approved_example = confirm_approved running work (codes "data") peer true answers

get_request_id-distinct_example :
    (get_request_id (requests 3 running)).1 ≢ (get_request_id running).1
get_request_id-distinct_example = get_request_id-distinct 3 running refl (omega arith) (omega arith)

approves : (confirm running work (codes "data") peer true answers).approved ≡ true
unfolding confirm parse_request await_response
approves = refl
