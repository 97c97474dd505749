-- ===== src/Crypto/Example.antt =====
-- Crates that keep their promises, for the tests: a byte as that many `a` and a `b`, a cipher that
-- changes nothing, and the key with the message as their code.
use sshwarden.Base.{
  ℕ, zero, suc, ◌+◌, ◌≡◌, refl, ap, ◌∙◌, true, [], ◌∷◌, ◌++◌, Option, none, some, arith, ◌==◌,
  if◌then◌else◌, Text, is_utf8,
}
use sshwarden.Crypto.{CryptoLib}
use sshwarden.Crypto.EncString.{IsLawful, IsPart}

abbrev pub unary : ℕ → Text → Text
unary zero s = b'b' ∷ s
unary (suc n) s = b'a' ∷ unary n s

abbrev pub encode : Text → Text
encode [] = []
encode (c ∷ s) = unary c (encode s)

abbrev pub decode_from : ℕ → Text → Option Text
decode_from n [] = some []
decode_from n (c ∷ s) =
    let more = decode_from (n + 1) s in
    let rest = decode_from 0 s in
    if c == b'a' then more else elim rest [ none ↦ none | some bytes ↦ some (n ∷ bytes) ]

abbrev pub example : CryptoLib
example = record {
  encode_base64 = encode;
  decode_base64 = decode_from 0;
  cbc_accepts = λ key iv. true;
  cbc_encrypt = λ key iv plain. plain;
  cbc_decrypt = λ key iv bytes. some bytes;
  hmac_sha256 = λ key message. some (key ++ message);
  hkdf_expand = λ key info. some (key ++ info);
  pbkdf2_hmac = λ password salt iterations. password ++ salt;
  sha256 = λ message. message;
  argon2 = λ password salt memory iterations parallelism size. some (password ++ salt);
  to_lowercase = λ s. s;
}

decode_from-unary :
    (m n : ℕ) (s bytes : Text)
    → decode_from 0 s ≡ some bytes
    → decode_from m (unary n s) ≡ some ((m + n) ∷ bytes)
decode_from-unary m zero s bytes e = rw e (ap (λ k. some (k ∷ bytes)) (omega arith))
decode_from-unary m (suc n) s bytes e =
    decode_from-unary (m + 1) n s bytes e ∙ ap (λ k. some (k ∷ bytes)) (omega arith)

pub decode_from-encode : (bytes : Text) → decode_from 0 (encode bytes) ≡ some bytes
decode_from-encode [] = refl
decode_from-encode (c ∷ s) =
    decode_from-unary 0 c (encode s) s (decode_from-encode s) ∙ ap (λ k. some (k ∷ s)) (omega arith)

unary-IsPart : (n : ℕ) (s : Text) → IsPart s → IsPart (unary n s)
unary-IsPart zero s h = (refl, h)
unary-IsPart (suc n) s h = (refl, unary-IsPart n s h)

pub encode-IsPart : (bytes : Text) → IsPart (encode bytes)
encode-IsPart [] = tt
encode-IsPart (c ∷ s) = unary-IsPart c (encode s) (encode-IsPart s)

is_utf8-unary : (n : ℕ) (s : Text) → is_utf8 s ≡ true → is_utf8 (unary n s) ≡ true
unfolding is_utf8
is_utf8-unary zero s h = h
is_utf8-unary (suc n) s h = is_utf8-unary n s h

pub is_utf8-encode : (bytes : Text) → is_utf8 (encode bytes) ≡ true
unfolding is_utf8
is_utf8-encode [] = refl
is_utf8-encode (c ∷ s) = is_utf8-unary c (encode s) (is_utf8-encode s)

abbrev pub example_laws : IsLawful example
example_laws = record {
  base64 = decode_from-encode;
  base64_part = encode-IsPart;
  cbc = λ key iv plain accepted. refl;
}
