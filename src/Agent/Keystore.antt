-- ===== src/Agent/Keystore.antt =====
-- The keystore of crates/sshwarden-agent/src/agent.rs and the public keys it is filed under.
use sshwarden.Base.{
  ℕ, ◌≡◌, refl, Bool, List, [], ◌∷◌, map, some, arith, Option-cases, Bool-cases, inl, inr, Text,
  Map, insert, Distinct, Fresh, AllEntries, insert-Distinct, insert-AllEntries,
}
use sshwarden.Agent.{
  SshKeyLib, SshWardenKey, SshWardenAgent, KeyTuple, parse_key_safe, load_key, load_keys, set_keys,
  load_identity, load_identities, set_public_identities, forget_private, lock, clear_keys, stop,
  new, confirm, can_list, AgentCall, sets_keys, sets_identities, locks, clears, stops,
  clears_needs_unlock, sets_running, confirms, lists, after, step, run, clear_needs_unlock,
  set_running, PeerInfo,
}

-- An entry is filed under its own public key, and a private key that it holds has that public key.
pub record Fits (lib : SshKeyLib) (bytes : Text) (key : SshWardenKey) : Type 0 where
  pub filed : key.public_key_bytes ≡ bytes
  pub matches : (k : Text) → key.private_key ≡ some k → lib.public_key_bytes k ≡ some bytes

pub record IsConsistent (lib : SshKeyLib) (keystore : Map SshWardenKey) : Type 0 where
  pub distinct : Distinct keystore
  pub fits : AllEntries (Fits lib) keystore

-- Answering a request leaves the keys alone.
pub confirm-keystore :
    (a : SshWardenAgent) (key : SshWardenKey) (payload : Text) (info : PeerInfo) (sent : Bool)
    (responses : List (ℕ × Bool))
    → (confirm a key payload info sent responses).agent.keystore ≡ a.keystore
unfolding confirm
confirm-keystore a key payload info sent responses = ground arith

pub can_list-keystore :
    (a : SshWardenAgent) (info : PeerInfo) (sent : Bool) (responses : List (ℕ × Bool))
    → (can_list a info sent responses).agent.keystore ≡ a.keystore
unfolding can_list
can_list-keystore a info sent responses = ground arith

module _ (lib : SshKeyLib) where
  empty-IsConsistent : IsConsistent lib []
  empty-IsConsistent = record { distinct = tt; fits = tt }

  insert-IsConsistent :
      (bytes : Text) (key : SshWardenKey) (m : Map SshWardenKey)
      → Fits lib bytes key
      → IsConsistent lib m
      → IsConsistent lib (insert bytes key m)
  insert-IsConsistent bytes key m f c = record {
    distinct = insert-Distinct bytes key m c.distinct;
    fits = insert-AllEntries (Fits lib) bytes key m f c.fits;
  }

  parse_key_safe_bytes :
      (pem k bytes : Text)
      → parse_key_safe lib pem ≡ some (k, bytes)
      → lib.public_key_bytes k ≡ some bytes
  unfolding parse_key_safe
  parse_key_safe_bytes pem k bytes e = ground arith

  load_key-IsConsistent :
      (m : Map SshWardenKey) (t : KeyTuple)
      → IsConsistent lib m
      → IsConsistent lib (load_key lib m t)
  unfolding load_key
  load_key-IsConsistent m (pem, key_name, cipher_id) c =
      elim (Option-cases (parse_key_safe lib pem)) [
        | inl e ↦ rw (e, load_key) c
        | inr ((k, bytes), e) ↦
            rw (e, load_key)
              (insert-IsConsistent bytes _ m
                (record {
                  filed = refl;
                  matches = λ k' e'. cc (parse_key_safe_bytes pem k bytes e);
                })
                c)
      ]

  load_keys-IsConsistent :
      (ks : List KeyTuple) (m : Map SshWardenKey)
      → IsConsistent lib m
      → IsConsistent lib (load_keys lib m ks)
  unfolding load_keys
  load_keys-IsConsistent [] m c = c
  load_keys-IsConsistent (k ∷ ks) m c =
      load_keys-IsConsistent ks (load_key lib m k) (load_key-IsConsistent m k c)

  load_identity-IsConsistent :
      (m : Map SshWardenKey) (t : KeyTuple)
      → IsConsistent lib m
      → IsConsistent lib (load_identity lib m t)
  unfolding load_identity
  load_identity-IsConsistent m (line, key_name, cipher_id) c =
      elim (Option-cases (lib.public_from_openssh line)) [
        | inl e ↦ rw (e, load_identity) c
        | inr (bytes, e) ↦
            rw (e, load_identity)
              (insert-IsConsistent bytes _ m (record { filed = refl; matches = λ k e'. cc }) c)
      ]

  load_identities-IsConsistent :
      (ks : List KeyTuple) (m : Map SshWardenKey)
      → IsConsistent lib m
      → IsConsistent lib (load_identities lib m ks)
  unfolding load_identities
  load_identities-IsConsistent [] m c = c
  load_identities-IsConsistent (k ∷ ks) m c =
      load_identities-IsConsistent ks (load_identity lib m k) (load_identity-IsConsistent m k c)

  forget-Fresh :
      (bytes : Text) (m : Map SshWardenKey) → Fresh bytes m → Fresh bytes (map forget_private m)
  unfolding forget_private
  forget-Fresh bytes [] h = tt
  forget-Fresh bytes ((b, k) ∷ m) h = (h.0, forget-Fresh bytes m h.1)

  forget-Distinct : (m : Map SshWardenKey) → Distinct m → Distinct (map forget_private m)
  unfolding forget_private
  forget-Distinct [] d = tt
  forget-Distinct ((b, k) ∷ m) d = (forget-Fresh b m d.0, forget-Distinct m d.1)

  forget-Fits :
      (m : Map SshWardenKey)
      → AllEntries (Fits lib) m
      → AllEntries (Fits lib) (map forget_private m)
  unfolding forget_private
  forget-Fits [] f = tt
  forget-Fits ((b, k) ∷ m) f =
      (record { filed = f.0.filed; matches = λ k' e. cc }, forget-Fits m f.1)

  set_keys-IsConsistent :
      (a : SshWardenAgent) (ks : List KeyTuple)
      → IsConsistent lib a.keystore
      → IsConsistent lib (after a (set_keys lib a ks)).keystore
  unfolding set_keys
  set_keys-IsConsistent a ks c = elim (Bool-cases a.is_running) [
    | inl on ↦ rw on (load_keys-IsConsistent ks [] empty-IsConsistent)
    | inr off ↦ rw off c
  ]

  set_public_identities-IsConsistent :
      (a : SshWardenAgent) (ks : List KeyTuple)
      → IsConsistent lib a.keystore
      → IsConsistent lib (after a (set_public_identities lib a ks)).keystore
  unfolding set_public_identities
  set_public_identities-IsConsistent a ks c = elim (Bool-cases a.is_running) [
    | inl on ↦ rw on (load_identities-IsConsistent ks [] empty-IsConsistent)
    | inr off ↦ rw off c
  ]

  lock-IsConsistent :
      (a : SshWardenAgent)
      → IsConsistent lib a.keystore
      → IsConsistent lib (after a (lock a)).keystore
  unfolding lock
  lock-IsConsistent a c = elim (Bool-cases a.is_running) [
    | inl on ↦ rw on (record {
      distinct = forget-Distinct a.keystore c.distinct;
      fits = forget-Fits a.keystore c.fits;
    })
    | inr off ↦ rw off c
  ]

  stop-IsConsistent :
      (a : SshWardenAgent) → IsConsistent lib a.keystore → IsConsistent lib (stop a).keystore
  unfolding stop
  stop-IsConsistent a c = elim (Bool-cases a.is_running) [
    | inl on ↦ rw on empty-IsConsistent
    | inr off ↦ rw off c
  ]

  step-IsConsistent :
      (a : SshWardenAgent) (call : AgentCall)
      → IsConsistent lib a.keystore
      → IsConsistent lib (step lib a call).keystore
  unfolding step clear_keys clear_needs_unlock set_running
  step-IsConsistent a (sets_keys ks) c = set_keys-IsConsistent a ks c
  step-IsConsistent a (sets_identities ks) c = set_public_identities-IsConsistent a ks c
  step-IsConsistent a locks c = lock-IsConsistent a c
  step-IsConsistent a clears c = empty-IsConsistent
  step-IsConsistent a stops c = stop-IsConsistent a c
  step-IsConsistent a clears_needs_unlock c = c
  step-IsConsistent a (sets_running value) c = c
  step-IsConsistent a (confirms key payload info sent responses) c =
      rw (confirm-keystore a key payload info sent responses) c
  step-IsConsistent a (lists info sent responses) c = rw (can_list-keystore a info sent responses) c

  run-IsConsistent :
      (a : SshWardenAgent) (calls : List AgentCall)
      → IsConsistent lib a.keystore
      → IsConsistent lib (run lib a calls).keystore
  unfolding run
  run-IsConsistent a [] c = c
  run-IsConsistent a (call ∷ calls) c =
      run-IsConsistent (step lib a call) calls (step-IsConsistent a call c)

  -- After any history of calls on a new agent, the keystore has one entry for each public key, filed
  -- under the entry's own public key, and a private key in it belongs to that public key.
  pub run-new-IsConsistent :
      (calls : List AgentCall) → IsConsistent lib (run lib new calls).keystore
  run-new-IsConsistent calls = run-IsConsistent new calls (unfold new in empty-IsConsistent)
