-- ===== src/Notifications/Frames.antt =====
-- The length prefix of SignalR frames: `encode_signalr_message` and `read_varint` of
-- crates/sshwarden-api/src/notifications.rs. A `usize` has 64 bits.
use native.Mathlib.Omega.{pow_step}
use mathlib.Core.Path.{subst}
use sshwarden.Base.{
  ltb→lt, ℕ, zero, suc, ◌+◌, ◌-◌, ◌*◌, ◌/◌, ◌%◌, ◌^◌, ◌≤◌, ◌<◌, ◌≡◌, ap, ◌∙◌, inl, inr, false, [],
  ◌∷◌, ◌++◌, Option, none, some, arith, ltb, leb, ◌==◌, if◌then◌else◌, Text, length, Bool-cases,
}

-- The loop over the size: seven bits a byte, the high bit set on all but the last. Ten bytes are enough
-- for 64 bits.
unfoldable pub encode_size : ℕ → ℕ → Text
encode_size zero size = []
encode_size (suc fuel) size =
    let rest = encode_size fuel (size / 128) in
    if size / 128 == 0 then size % 128 ∷ [] else (size % 128 + 128) ∷ rest

-- `result |= ((byte & 0x7F) as usize) << shift`, where the bits below `shift` are those of `result`.
unfoldable pub read_varint_from : ℕ → ℕ → ℕ → Text → Option (ℕ × ℕ)
read_varint_from shift result i [] = none
read_varint_from shift result i (byte ∷ data_left) =
    let result' = result + byte % 128 * 2 ^ shift % 2 ^ 64 in
    let rest = read_varint_from (shift + 7) result' (i + 1) data_left in
    if ltb byte 128 then some (result', i + 1) else if leb 64 (shift + 7) then none else rest

unfoldable pub read_varint : Text → Option (ℕ × ℕ)
read_varint bytes = read_varint_from 0 0 0 bytes

sevens : (s : ℕ) → s + 7 ≡ suc (suc (suc (suc (suc (suc (suc s))))))
sevens s = omega arith

pow_7 : (s : ℕ) → 2 ^ (s + 7) ≡ 128 * 2 ^ s
pow_7 s =
    ap (λ k. 2 ^ k) (sevens s)
    ∙ omega (
      arith,
      pow_step 2 s,
      pow_step 2 (suc s),
      pow_step 2 (suc (suc s)),
      pow_step 2 (suc (suc (suc s))),
      pow_step 2 (suc (suc (suc (suc s)))),
      pow_step 2 (suc (suc (suc (suc (suc s))))),
      pow_step 2 (suc (suc (suc (suc (suc (suc s)))))),
    )

spread : (r q p : ℕ) → (r + 128 * q) * p ≡ r * p + q * (128 * p)
spread r q p = grind arith

split_size : (size p : ℕ) → size * p ≡ size % 128 * p + size / 128 * (128 * p)
split_size size p = ap (λ n. n * p) parts ∙ spread (size % 128) (size / 128) p
  where
    parts : size ≡ size % 128 + 128 * (size / 128)
    parts = omega arith

low_part : (size p : ℕ) → size % 128 * p ≤ size * p
low_part size p = omega (arith, split_size size p)

pow_57 : (d : ℕ) → 2 ^ 57 ≤ 2 ^ (57 + d)
pow_57 zero = omega arith
pow_57 (suc d) = omega (arith, pow_57 d, ap (λ k. 2 ^ k) (next d) ∙ pow_step 2 (57 + d))
  where
    next : (d : ℕ) → 57 + suc d ≡ suc (57 + d)
    next d = omega arith

at_least : (k p : ℕ) → 128 * p ≤ (128 + k) * p
at_least k p = grind arith

high_small : (size s : ℕ) → 128 ≤ size → size * 2 ^ s < 2 ^ 64 → s + 7 < 64
high_small size s big small = elim (Bool-cases (ltb (s + 7) 64)) [
  | inl fits ↦ ltb→lt (s + 7) 64 fits
  | inr over ↦ absurd (omega (arith, wide over, more, small))
]
  where
    wide : ltb (s + 7) 64 ≡ false → 2 ^ 57 ≤ 2 ^ s
    wide o = subst (λ k. 2 ^ 57 ≤ 2 ^ k) (far o) (pow_57 (s - 57))
      where
        far : ltb (s + 7) 64 ≡ false → 57 + (s - 57) ≡ s
        far e = ground arith

    more : 128 * 2 ^ s ≤ size * 2 ^ s
    more = subst (λ n. 128 * 2 ^ s ≤ n * 2 ^ s) whole (at_least (size - 128) (2 ^ s))
      where
        whole : 128 + (size - 128) ≡ size
        whole = omega arith

-- What a byte adds, where it fits.
group_small : (b c s : ℕ) → c % 128 ≡ b → b * 2 ^ s < 2 ^ 64 → c % 128 * 2 ^ s % 2 ^ 64 ≡ b * 2 ^ s
group_small b c s e h = ap (λ n. n * 2 ^ s % 2 ^ 64) e ∙ omega (arith, h)

read_last :
    (b s r i : ℕ) (rest : Text)
    → b < 128
    → b * 2 ^ s < 2 ^ 64
    → read_varint_from s r i (b ∷ rest) ≡ some (r + b * 2 ^ s, i + 1)
unfolding read_varint_from
read_last b s r i rest small fits = ground (arith, group_small b b s (omega arith) fits)

read_cons :
    (c s r i : ℕ) (rest : Text)
    → ltb c 128 ≡ false
    → leb 64 (s + 7) ≡ false
    → read_varint_from s r i (c ∷ rest)
      ≡ read_varint_from (s + 7) (r + c % 128 * 2 ^ s % 2 ^ 64) (i + 1) rest
unfolding read_varint_from
read_cons c s r i rest high room = rw (high, room)

read_more :
    (b s r i : ℕ) (rest : Text)
    → b < 128
    → s + 7 < 64
    → b * 2 ^ s < 2 ^ 64
    → read_varint_from s r i ((b + 128) ∷ rest)
      ≡ read_varint_from (s + 7) (r + b * 2 ^ s) (i + 1) rest
read_more b s r i rest small room fits =
    read_cons (b + 128) s r i rest (ground arith) (ground arith)
    ∙ ap (λ x. read_varint_from (s + 7) (r + x) (i + 1) rest)
        (group_small b (b + 128) s (omega arith) fits)

encode_last : (k size : ℕ) → size < 128 → encode_size (suc k) size ≡ size ∷ []
unfolding encode_size
encode_last k size small = ground arith

encode_more :
    (k size : ℕ)
    → 128 ≤ size
    → encode_size (suc k) size ≡ (size % 128 + 128) ∷ encode_size k (size / 128)
unfolding encode_size
encode_more k size big = ground arith

total : (size s r : ℕ) → r + size % 128 * 2 ^ s + size / 128 * 2 ^ (s + 7) ≡ r + size * 2 ^ s
total size s r = omega (arith, split_size size (2 ^ s), ap (λ p. size / 128 * p) (pow_7 s))

counted : (i n : ℕ) → i + 1 + n ≡ i + suc n
counted i n = omega arith

not_ltb : (size : ℕ) → ltb size 128 ≡ false → 128 ≤ size
not_ltb size e = ground arith

read_short :
    (k size s r i : ℕ) (rest : Text)
    → size < 128
    → r + size * 2 ^ s < 2 ^ 64
    → read_varint_from s r i (encode_size (suc k) size ++ rest)
      ≡ some (r + size * 2 ^ s, i + length (encode_size (suc k) size))
read_short k size s r i rest small fits =
    rw (encode_last k size small) (read_last size s r i rest small (omega (arith, fits)))

-- Reading back what was written, from any position: `k + 1` bytes are enough for sizes below 128 to the
-- power of `k + 1`.
read-encode :
    (k size s r i : ℕ) (rest : Text)
    → size < 128 ^ suc k
    → r + size * 2 ^ s < 2 ^ 64
    → read_varint_from s r i (encode_size (suc k) size ++ rest)
      ≡ some (r + size * 2 ^ s, i + length (encode_size (suc k) size))
read-encode zero size s r i rest enough fits =
    read_short zero size s r i rest (omega (arith, enough, pow_step 128 0)) fits
read-encode (suc k) size s r i rest enough fits = elim (Bool-cases (ltb size 128)) [
  | inl small ↦ read_short (suc k) size s r i rest (ltb→lt size 128 small) fits
  | inr long ↦
      let big = not_ltb size long in
      let left = encode_size (suc k) (size / 128) in
      rw (encode_more (suc k) size big) (
        read_more (size % 128) s r i (left ++ rest) (omega arith)
          (high_small size s big (omega (arith, fits))) (omega (arith, low_part size (2 ^ s), fits))
        ∙ read-encode k (size / 128) (s + 7) (r + size % 128 * 2 ^ s) (i + 1) rest
            (omega (arith, enough, pow_step 128 (suc k))) (omega (arith, total size s r, fits))
        ∙ ap (λ n. some (n, i + 1 + length left)) (total size s r)
        ∙ ap (λ n. some (r + size * 2 ^ s, n)) (counted i (length left)))
]

-- The length prefix of a frame is read back as the number it was made of, with the number of its bytes,
-- for every 64-bit size and whatever follows: ten bytes are enough.
pub read_varint-encode_size :
    (size : ℕ) (rest : Text)
    → size < 2 ^ 64
    → read_varint (encode_size 10 size ++ rest) ≡ some (size, length (encode_size 10 size))
unfolding read_varint
read_varint-encode_size size rest small =
    read-encode 9 size 0 0 0 rest (omega (arith, small)) (omega (arith, small))
    ∙ ap (λ n. some (n, 0 + length (encode_size 10 size))) same
    ∙ ap (λ n. some (size, n)) from_zero
  where
    same : 0 + size * 2 ^ 0 ≡ size
    same = omega arith

    from_zero : 0 + length (encode_size 10 size) ≡ length (encode_size 10 size)
    from_zero = omega arith
