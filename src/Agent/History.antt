-- ===== src/Agent/History.antt =====
-- Locking, and histories of calls, of crates/sshwarden-agent/src/agent.rs.
use sshwarden.Base.{
  ◌≡◌, ◌≢◌, refl, ◌⊎◌, true, false, List, [], ◌∷◌, map, none, arith, All, Map, Text, insert, retain,
  length, Bool-cases, Option-cases, inl, inr, ok, err,
}
use sshwarden.Agent.{
  SshKeyLib, SshWardenKey, SshWardenAgent, KeyTuple, AgentCall, sets_keys, sets_identities, locks,
  clears, stops, clears_needs_unlock, sets_running, confirms, lists, after, step, run, lock, stop,
  clear_keys, clear_needs_unlock, set_running, set_public_identities, load_identity,
  load_identities, forget_private, can_sign, signable_key_count, key_count, not_running,
}
use sshwarden.Agent.Keystore.{confirm-keystore, can_list-keystore}

-- No entry of the keystore holds a private key.
abbrev pub HasNoPrivateKey : Map SshWardenKey → Type 0
HasNoPrivateKey = All λ e. e.1.private_key ≡ none

insert-HasNoPrivateKey :
    (bytes : Text) (key : SshWardenKey) (m : Map SshWardenKey)
    → key.private_key ≡ none
    → HasNoPrivateKey m
    → HasNoPrivateKey (insert bytes key m)
unfolding insert
insert-HasNoPrivateKey bytes key [] e h = (e, tt)
insert-HasNoPrivateKey bytes key ((b, k) ∷ m) e h =
    ground (arith, insert-HasNoPrivateKey bytes key m e)

module _ (lib : SshKeyLib) where
  load_identity-HasNoPrivateKey :
      (m : Map SshWardenKey) (t : KeyTuple)
      → HasNoPrivateKey m
      → HasNoPrivateKey (load_identity lib m t)
  unfolding load_identity
  load_identity-HasNoPrivateKey m (line, key_name, cipher_id) h =
      elim (Option-cases (lib.public_from_openssh line)) [
        | inl e ↦ rw (e, load_identity) h
        | inr (bytes, e) ↦ rw (e, load_identity) (insert-HasNoPrivateKey bytes _ m refl h)
      ]

  load_identities-HasNoPrivateKey :
      (ks : List KeyTuple) (m : Map SshWardenKey)
      → HasNoPrivateKey m
      → HasNoPrivateKey (load_identities lib m ks)
  unfolding load_identities
  load_identities-HasNoPrivateKey [] m h = h
  load_identities-HasNoPrivateKey (k ∷ ks) m h =
      load_identities-HasNoPrivateKey ks (load_identity lib m k)
        (load_identity-HasNoPrivateKey m k h)

pub forget-HasNoPrivateKey : (m : Map SshWardenKey) → HasNoPrivateKey (map forget_private m)
unfolding forget_private
forget-HasNoPrivateKey [] = tt
forget-HasNoPrivateKey ((b, k) ∷ m) = (refl, forget-HasNoPrivateKey m)

pub signable-zero : (m : Map SshWardenKey) → HasNoPrivateKey m → length (retain can_sign m) ≡ 0
unfolding retain can_sign
signable-zero [] h = refl
signable-zero ((b, k) ∷ m) h = rw (h.0) (signable-zero m h.1)

length-forget : (m : Map SshWardenKey) → length (map forget_private m) ≡ length m
length-forget [] = refl
length-forget (e ∷ m) = omega (arith, length-forget m)

-- Locking a running agent leaves every identity listed and none able to sign, and asks for no unlock
-- to list them; on a stopped agent it fails.
pub lock_lem :
    (a : SshWardenAgent)
    → ((a.is_running ≡ false) × (lock a ≡ err not_running))
      ⊎ ((b : SshWardenAgent) × (lock a ≡ ok b)
          × (key_count b ≡ key_count a)
          × (signable_key_count b ≡ 0)
          × (b.needs_unlock ≡ false)
          × (b.is_running ≡ true))
unfolding lock key_count signable_key_count
lock_lem a = elim (Bool-cases a.is_running) [
  | inl on ↦ inr (
    record a { keystore = map forget_private a.keystore; needs_unlock = false },
    ground arith,
    length-forget a.keystore,
    signable-zero (map forget_private a.keystore) (forget-HasNoPrivateKey a.keystore),
    refl,
    on,
  )
  | inr off ↦ inl (off, ground arith)
]

-- A call that is not `set_keys`.
abbrev pub KeepsLocked : AgentCall → Type 0
KeepsLocked c = (ks : List KeyTuple) → c ≢ sets_keys ks

module _ (lib : SshKeyLib) where
  pub set_public_identities-HasNoPrivateKey :
      (a : SshWardenAgent) (ks : List KeyTuple)
      → HasNoPrivateKey a.keystore
      → HasNoPrivateKey (after a (set_public_identities lib a ks)).keystore
  unfolding set_public_identities
  set_public_identities-HasNoPrivateKey a ks h = elim (Bool-cases a.is_running) [
    | inl on ↦ rw on (load_identities-HasNoPrivateKey lib ks [] tt)
    | inr off ↦ rw off h
  ]

  lock-HasNoPrivateKey :
      (a : SshWardenAgent)
      → HasNoPrivateKey a.keystore
      → HasNoPrivateKey (after a (lock a)).keystore
  unfolding lock
  lock-HasNoPrivateKey a h = elim (Bool-cases a.is_running) [
    | inl on ↦ rw on (forget-HasNoPrivateKey a.keystore)
    | inr off ↦ rw off h
  ]

  stop-HasNoPrivateKey :
      (a : SshWardenAgent) → HasNoPrivateKey a.keystore → HasNoPrivateKey (stop a).keystore
  unfolding stop
  stop-HasNoPrivateKey a h = elim (Bool-cases a.is_running) [
    | inl on ↦ rw on tt
    | inr off ↦ rw off h
  ]

  step-HasNoPrivateKey :
      (a : SshWardenAgent) (c : AgentCall)
      → KeepsLocked c
      → HasNoPrivateKey a.keystore
      → HasNoPrivateKey (step lib a c).keystore
  unfolding step clear_keys clear_needs_unlock set_running
  step-HasNoPrivateKey a (sets_keys ks) keep h = absurd (keep ks refl)
  step-HasNoPrivateKey a (sets_identities ks) keep h = set_public_identities-HasNoPrivateKey a ks h
  step-HasNoPrivateKey a locks keep h = lock-HasNoPrivateKey a h
  step-HasNoPrivateKey a clears keep h = tt
  step-HasNoPrivateKey a stops keep h = stop-HasNoPrivateKey a h
  step-HasNoPrivateKey a clears_needs_unlock keep h = h
  step-HasNoPrivateKey a (sets_running value) keep h = h
  step-HasNoPrivateKey a (confirms key payload info sent responses) keep h =
      rw (confirm-keystore a key payload info sent responses) h
  step-HasNoPrivateKey a (lists info sent responses) keep h =
      rw (can_list-keystore a info sent responses) h

  run-HasNoPrivateKey :
      (a : SshWardenAgent) (cs : List AgentCall)
      → All KeepsLocked cs
      → HasNoPrivateKey a.keystore
      → HasNoPrivateKey (run lib a cs).keystore
  unfolding run
  run-HasNoPrivateKey a [] keep h = h
  run-HasNoPrivateKey a (c ∷ cs) keep h =
      run-HasNoPrivateKey (step lib a c) cs keep.1 (step-HasNoPrivateKey a c keep.0 h)

  -- Once a running agent has been locked, no history of calls makes a key signable again unless it
  -- calls `set_keys`.
  pub run-lock-signable :
      (a : SshWardenAgent) (cs : List AgentCall)
      → a.is_running ≡ true
      → All KeepsLocked cs
      → signable_key_count (run lib a (locks ∷ cs)) ≡ 0
  unfolding run step signable_key_count lock
  run-lock-signable a cs on keep =
      signable-zero _
        (run-HasNoPrivateKey (step lib a locks) cs keep (rw on (forget-HasNoPrivateKey a.keystore)))
