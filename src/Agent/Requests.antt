-- ===== src/Agent/Requests.antt =====
-- Which answers let a request through, and how requests are told apart.
use sshwarden.Base.{
  ℕ, zero, suc, ◌+◌, ◌%◌, ◌<◌, ◌≡◌, ◌≢◌, ◌↔◌, ◌⊎◌, inl, inr, Bool, true, false, List, [], ◌∷◌,
  arith, ok, Text, ◌==◌, ==_iff, Bool-cases,
}
use sshwarden.RequestParser.{SshAgentSignRequest, parse_request}
use sshwarden.Agent.{
  SshWardenAgent, SshWardenKey, PeerInfo, confirm, can_list, await_response, get_request_id,
  u32_mod,
}

-- The first answer to request `id` on the channel is `b`: the answers before it are to others.
pub data Answers (id : ℕ) (b : Bool) : List (ℕ × Bool) → Type 0 where
  here : {j : ℕ} {c : Bool} {rest : List (ℕ × Bool)} → j ≡ id → c ≡ b → Answers id b ((j, c) ∷ rest)
  later :
      {j : ℕ} {c : Bool} {rest : List (ℕ × Bool)}
      → j ≢ id
      → Answers id b rest
      → Answers id b ((j, c) ∷ rest)

await_response-Answers :
    (id : ℕ) (rs : List (ℕ × Bool)) → await_response id rs ≡ true → Answers id true rs
unfolding await_response
await_response-Answers id [] h = cc
await_response-Answers id ((j, c) ∷ rs) h = elim (Bool-cases (j == id)) [
  | inl same ↦ here ((==_iff j id).0 same) (ground arith)
  | inr other ↦ later (λ e. ground arith) (await_response-Answers id rs (ground arith))
]

Answers-await_response :
    {id : ℕ} {b : Bool} {rs : List (ℕ × Bool)} → Answers id b rs → await_response id rs ≡ b
unfolding await_response
Answers-await_response (here e f) = ground arith
Answers-await_response {id} {b} (later {j} {c} {rest} ne h) =
    ground (arith, Answers-await_response h)

confirm_parts :
    (a : SshWardenAgent) (key : SshWardenKey) (payload : Text) (info : PeerInfo) (sent : Bool)
    (responses : List (ℕ × Bool))
    → (confirm a key payload info sent responses).approved ≡ true
    → (a.is_running ≡ true)
      × ((r : SshAgentSignRequest) × (parse_request payload ≡ ok r))
      × (sent ≡ true)
      × (await_response a.next_request_id responses ≡ true)
unfolding confirm
confirm_parts a key payload info sent responses h = ground arith

-- What has to hold for a signature to be approved.
pub record IsApproved (a : SshWardenAgent) (payload : Text) (sent : Bool)
    (responses : List (ℕ × Bool)) : Type 0 where
  pub running : a.is_running ≡ true
  pub request : SshAgentSignRequest
  pub parsed : parse_request payload ≡ ok request
  pub delivered : sent ≡ true
  pub answered : Answers a.next_request_id true responses

-- A signature is approved exactly when the agent runs, the payload can be parsed, the request
-- reaches the host application, and the first answer to that very request is positive.
pub confirm_approved :
    (a : SshWardenAgent) (key : SshWardenKey) (payload : Text) (info : PeerInfo) (sent : Bool)
    (responses : List (ℕ × Bool))
    → ((confirm a key payload info sent responses).approved ≡ true)
      ↔ IsApproved a payload sent responses
confirm_approved a key payload info sent responses = (approved-parts, parts-approved)
  where
    approved-parts :
        (confirm a key payload info sent responses).approved ≡ true
        → IsApproved a payload sent responses
    approved-parts h =
        let (on, (r, parsed), delivered, answer) =
          confirm_parts a key payload info sent responses h in
        record {
          running = on;
          request = r;
          parsed = parsed;
          delivered = delivered;
          answered = await_response-Answers a.next_request_id responses answer;
        }

    parts-approved :
        IsApproved a payload sent responses
        → (confirm a key payload info sent responses).approved ≡ true
    parts-approved v = unfold confirm in ground (arith, Answers-await_response v.answered)

can_list_parts :
    (a : SshWardenAgent) (info : PeerInfo) (sent : Bool) (responses : List (ℕ × Bool))
    → ((can_list a info sent responses).approved ≡ true) ↔ (
        (a.needs_unlock ≡ false)
        ⊎ ((sent ≡ true) × (await_response (get_request_id a).1 responses ≡ true)))
unfolding can_list
can_list_parts a info sent responses = (λ h. ground arith, λ h. ground arith)

-- The list of keys is given out exactly when no unlock is wanted, or the request reaches the host
-- application and the first answer to that very request is positive.
pub can_list_approved :
    (a : SshWardenAgent) (info : PeerInfo) (sent : Bool) (responses : List (ℕ × Bool))
    → ((can_list a info sent responses).approved ≡ true)
      ↔ ((a.needs_unlock ≡ false) ⊎ ((sent ≡ true) × Answers (get_request_id a).1 true responses))
can_list_approved a info sent responses = (
  λ h. elim ((can_list_parts a info sent responses).0 h) [
    | inl free ↦ inl free
    | inr (delivered, answer) ↦ inr (delivered, await_response-Answers _ responses answer)
  ],
  λ h. elim h [
    | inl free ↦ (can_list_parts a info sent responses).1 (inl free)
    | inr (delivered, answer) ↦
        (can_list_parts a info sent responses).1 (inr (delivered, Answers-await_response answer))
  ],
)

-- `n` requests, one after the other.
pub requests : ℕ → SshWardenAgent → SshWardenAgent
requests zero a = a
requests (suc n) a = requests n (get_request_id a).0

requests_running :
    (n : ℕ) (a : SshWardenAgent)
    → a.is_running ≡ true
    → ((requests n a).is_running ≡ true)
      × ((requests n a).next_request_id % u32_mod ≡ (a.next_request_id + n) % u32_mod)
unfolding requests get_request_id
requests_running zero a on = (on, omega arith)
requests_running (suc n) a on = ground (arith, requests_running n (get_request_id a).0)

-- Of a running agent, any two of 2^32 successive requests have different ids.
pub get_request_id-distinct :
    (n : ℕ) (a : SshWardenAgent)
    → a.is_running ≡ true
    → 0 < n
    → n < u32_mod
    → (get_request_id (requests n a)).1 ≢ (get_request_id a).1
unfolding get_request_id
get_request_id-distinct n a on pos small = ground (arith, requests_running n a)
