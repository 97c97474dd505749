-- ===== src/Notifications/Messages.antt =====
-- The reading of a frame: `encode_signalr_message`, `parse_signalr_message` and `extract_update_type` of
-- crates/sshwarden-api/src/notifications.rs. What rmpv reads in a payload is a parameter. A `usize` has
-- 64 bits and wraps, as in a release build, and a slice that ends before it starts panics.
use mathlib.Core.List.{append_assoc}
use sshwarden.Base.{
  ℕ, zero, suc, ◌+◌, ◌-◌, ◌/◌, ◌%◌, ◌^◌, ◌≤◌, ◌<◌, ◌≡◌, refl, ap, ◌∙◌, inl, inr, false, ◌||◌, [],
  ◌++◌, Option, none, some, arith, ltb, leb, ltb→lt, leb→le, ◌==◌, if◌then◌else◌, Bool-cases, Text,
  codes, text_eq, length, length-append, take, drop, drop-append, take-append,
}
use sshwarden.Notifications.Frames.{encode_size, read_varint, read_varint-encode_size}

-- The values of MessagePack that the reading tells apart.
mutual
  pub data Value : Type 0 where
    unsigned : ℕ → Value
    text : Text → Value
    array : Values → Value
    map : Entries → Value
    other : Value

  pub data Values : Type 0 where
    nil : Values
    cons : Value → Values → Values

  pub data Entries : Type 0 where
    end : Entries
    entry : Value → Value → Entries → Entries

pub data SyncEvent : Type 0 where
  cipher_changed logs_out : SyncEvent

pub data Parsed : Type 0 where
  panics : Parsed
  returns : Option SyncEvent → Parsed

abbrev as_u64 : Value → Option ℕ
as_u64 (unsigned n) = some n
as_u64 (text s) = none
as_u64 (array vs) = none
as_u64 (map es) = none
as_u64 other = none

abbrev text_or_empty : Value → Text
text_or_empty (text s) = s
text_or_empty (unsigned n) = []
text_or_empty (array vs) = []
text_or_empty (map es) = []
text_or_empty other = []

abbrev get : ℕ → Values → Option Value
get n nil = none
get zero (cons v vs) = some v
get (suc n) (cons v vs) = get n vs

-- The loop over the entries of a map: the first one with the key decides.
unfoldable pub type_in : Entries → Option ℕ
type_in end = none
type_in (entry k v es) =
    let later = type_in es in
    if text_eq (text_or_empty k) (codes "Type") || text_eq (text_or_empty k) (codes "type")
    then as_u64 v
    else later

unfoldable pub extract_update_type : Value → Option ℕ
unfolding type_in
extract_update_type (map es) = type_in es
extract_update_type (unsigned n) = none
extract_update_type (text s) = none
extract_update_type (array vs) = none
extract_update_type other = none

abbrev first_argument : Value → Option Value
first_argument (array vs) = get 0 vs
first_argument (map es) = none
first_argument (unsigned n) = none
first_argument (text s) = none
first_argument other = none

unfoldable pub event_of_type : ℕ → Option SyncEvent
event_of_type n =
    if n == 11
    then some logs_out
    else if n == 3
    then none
    else if leb n 6
    then some cipher_changed
    else none

abbrev and_then : {A B : Type 0} → Option A → (A → Option B) → Option B
and_then o next = elim o [ none ↦ none | some a ↦ next a ]

abbrev event_of_arguments : Value → Option SyncEvent
event_of_arguments arguments =
    and_then (first_argument arguments) λ first. and_then (extract_update_type first) event_of_type

abbrev event_of_message : Values → ℕ → Option SyncEvent
event_of_message vs msg_type =
    if msg_type == 1 then and_then (get 4 vs) event_of_arguments else none

abbrev event_of_array : Values → Option SyncEvent
event_of_array vs = and_then (and_then (get 0 vs) as_u64) (event_of_message vs)

-- The event in a payload that was read.
unfoldable pub event_of : Value → Option SyncEvent
unfolding extract_update_type event_of_type
event_of (array vs) = event_of_array vs
event_of (map es) = none
event_of (unsigned n) = none
event_of (text s) = none
event_of other = none

unfoldable pub encode_signalr_message : Text → Text
unfolding encode_size
encode_signalr_message payload = encode_size 10 (length payload) ++ payload

module _ (decode : Text → Option Value) where
  abbrev pub event_in : Text → Option SyncEvent
  event_in payload = elim (decode payload) [ none ↦ none | some value ↦ event_of value ]

  unfoldable pub parse_payload : ℕ → ℕ → Text → Parsed
  unfolding event_of
  parse_payload size start bytes =
      let stop = (start + size) % 2 ^ 64 in
      if ltb (length bytes) stop
      then returns none
      else if ltb stop start
      then panics
      else returns (event_in (take (stop - start) (drop start bytes)))

  unfoldable pub parse_signalr_message : Text → Parsed
  unfolding parse_payload
  parse_signalr_message bytes = elim (read_varint bytes) [
    | none ↦ returns none
    | some (size, start) ↦ parse_payload size start bytes
  ]

length-encode_size : (fuel size : ℕ) → length (encode_size fuel size) ≤ fuel
unfolding encode_size
length-encode_size zero size = omega arith
length-encode_size (suc fuel) size = ground (arith, length-encode_size fuel (size / 128))

module _ (decode : Text → Option Value) (prefix rest : Text) (size : ℕ) where
  stop : ℕ
  stop = (length prefix + size) % 2 ^ 64

  wrapped :
      length prefix ≤ 10 → size < 2 ^ 64 → 2 ^ 64 ≤ length prefix + size → stop < length prefix
  unfolding stop
  wrapped p q h = omega (arith, p, q, h)

  unwrapped : length prefix + size < 2 ^ 64 → stop ≡ length prefix + size
  unfolding stop
  unwrapped h = omega (arith, h)

  payload_panics :
      length prefix ≤ 10
      → size < 2 ^ 64
      → 2 ^ 64 ≤ length prefix + size
      → parse_payload decode size (length prefix) (prefix ++ rest) ≡ panics
  unfolding parse_payload stop
  payload_panics p q h = let w = wrapped p q h in ground (arith, w, length-append prefix rest)

  payload_missing :
      length prefix + size < 2 ^ 64
      → length rest < size
      → parse_payload decode size (length prefix) (prefix ++ rest) ≡ returns none
  unfolding parse_payload stop
  payload_missing h k = let w = unwrapped h in ground (arith, w, length-append prefix rest)

  payload_read :
      length prefix + size < 2 ^ 64
      → size ≤ length rest
      → parse_payload decode size (length prefix) (prefix ++ rest)
        ≡ returns (event_in decode (take size rest))
  unfolding parse_payload stop
  payload_read h k =
      let w = unwrapped h in
      let n : length prefix + size - length prefix ≡ size = omega arith in
      let a : ltb (length (prefix ++ rest)) (length prefix + size) ≡ false =
        ground (arith, length-append prefix rest) in
      let b : ltb (length prefix + size) (length prefix) ≡ false = ground arith in
      rw (w, a, b, n, drop-append prefix rest) refl

module _ (decode : Text → Option Value) where
  -- What a frame is read as, whose prefix is a size: the daemon dies where the size and the prefix do not
  -- fit in 64 bits; nothing is read where bytes are missing; else the event of the payload.
  abbrev pub expected : ℕ → Text → Parsed
  expected size rest =
      if leb (2 ^ 64) (length (encode_size 10 size) + size)
      then panics
      else if ltb (length rest) size
      then returns none
      else returns (event_in decode (take size rest))

  frame_lem :
      (size : ℕ) (rest : Text)
      → size < 2 ^ 64
      → parse_payload decode size (length (encode_size 10 size)) (encode_size 10 size ++ rest)
        ≡ expected size rest
  frame_lem size rest small =
      let prefix = encode_size 10 size in
      elim (Bool-cases (leb (2 ^ 64) (length prefix + size))) [
        | inl h ↦ rw h (
            payload_panics decode prefix rest size (length-encode_size 10 size) small
              (leb→le _ _ h))
        | inr h ↦ elim (Bool-cases (ltb (length rest) size)) [
          | inl k ↦
              rw (h, k) (payload_missing decode prefix rest size (ground (arith, h)) (ltb→lt _ _ k))
          | inr k ↦
              rw (h, k)
                (payload_read decode prefix rest size (ground (arith, h)) (ground (arith, k)))
        ]
      ]

  -- Whatever size stands in front of a frame, and whatever follows it: the reading panics exactly where
  -- the size and its prefix together do not fit in 64 bits; else it gives nothing where bytes are
  -- missing, and the event of as many bytes as the size says where they are there.
  pub parse_signalr_message-encode_size :
      (size : ℕ) (rest : Text)
      → size < 2 ^ 64
      → parse_signalr_message decode (encode_size 10 size ++ rest) ≡ expected size rest
  unfolding parse_signalr_message
  parse_signalr_message-encode_size size rest small =
      rw (parse_signalr_message, read_varint-encode_size size rest small)
        (frame_lem size rest small)

  -- A payload that is sent in a frame is read back, whatever follows the frame, and what follows is
  -- dropped. The payload is shorter than 2^64 - 10 bytes.
  pub parse-encode_signalr_message :
      (payload rest : Text)
      → length payload + 10 < 2 ^ 64
      → parse_signalr_message decode (encode_signalr_message payload ++ rest)
        ≡ returns (event_in decode payload)
  unfolding encode_signalr_message
  parse-encode_signalr_message payload rest small =
      let size = length payload in
      let prefix = encode_size 10 size in
      let fits : leb (2 ^ 64) (length prefix + size) ≡ false =
        ground (arith, length-encode_size 10 size, small) in
      let there : ltb (length (payload ++ rest)) size ≡ false =
        ground (arith, length-append payload rest) in
      ap (parse_signalr_message decode) (append_assoc prefix payload rest)
      ∙ parse_signalr_message-encode_size size (payload ++ rest) (omega (arith, small))
      ∙ rw (fits, there) (ap (λ t. returns (event_in decode t)) (take-append payload rest))
