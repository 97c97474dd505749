-- ===== src/Crypto/EncString.antt =====
-- The text form of encrypted values: what was encrypted is read back, and nothing of type 2 is read
-- whose code does not fit.
use sshwarden.Base.{
  ℕ, ◌≡◌, refl, ap, ◌∙◌, ◌⊎◌, inl, inr, true, false, List, [], ◌∷◌, ◌++◌, some, arith, ◌==◌, ==_iff,
  All, Text, text_eq, text_eq_refl, text_eq_iff, ok, Bool-cases, Option-cases,
}
use sshwarden.Crypto.{
  SymmetricKey, CryptoLib, split_once, split, parse_u8, decrypt_type2, decrypt_type,
  decrypt_enc_string, encrypt_enc_string, enc_string_of, decrypt_cbc,
}

-- A text without the separator of the parts.
abbrev pub IsPart : Text → Type 0
IsPart s = All (λ c. (c == b'|') ≡ false) s

-- What the crates promise: base64 is undone by its decoding and has no `|` in its alphabet, and the
-- cipher is undone under the same key and vector.
pub record IsLawful (lib : CryptoLib) : Type 0 where
  pub base64 : (bytes : Text) → lib.decode_base64 (lib.encode_base64 bytes) ≡ some bytes
  pub base64_part : (bytes : Text) → IsPart (lib.encode_base64 bytes)
  pub cbc :
      (key iv plain : Text)
      → lib.cbc_accepts key iv ≡ true
      → lib.cbc_decrypt key iv (lib.cbc_encrypt key iv plain) ≡ some plain

split-part : (a s : Text) → IsPart a → split b'|' (a ++ b'|' ∷ s) ≡ a ∷ split b'|' s
unfolding split
split-part [] s h = refl
split-part (c ∷ a) s h = rw (h.0, split-part a s h.1) refl

split-one : (a : Text) → IsPart a → split b'|' a ≡ a ∷ []
unfolding split
split-one [] h = refl
split-one (c ∷ a) h = rw (h.0, split-one a h.1) refl

split-parts :
    (a b c : Text)
    → IsPart a
    → IsPart b
    → IsPart c
    → split b'|' (a ++ (b'|' ∷ (b ++ (b'|' ∷ c)))) ≡ a ∷ b ∷ c ∷ []
split-parts a b c h k l =
    split-part a (b ++ (b'|' ∷ c)) h ∙ ap (◌∷◌ a) (split-part b c k ∙ ap (◌∷◌ b) (split-one c l))

module _ (lib : CryptoLib) (laws : IsLawful lib) where
  decrypt_type2-parts :
      (key : SymmetricKey) (iv bytes mac : Text)
      → lib.hmac_sha256 key.mac_key (iv ++ bytes) ≡ some mac
      → decrypt_type2 lib
          (lib.encode_base64 iv ∷ lib.encode_base64 bytes ∷ lib.encode_base64 mac ∷ [])
          key
        ≡ decrypt_cbc lib key iv bytes
  unfolding decrypt_type2
  decrypt_type2-parts key iv bytes mac h =
      rw (laws.base64 iv, laws.base64 bytes, laws.base64 mac, h, text_eq_refl mac) refl

  decrypt-enc_string_of :
      (key : SymmetricKey) (iv bytes mac : Text)
      → lib.hmac_sha256 key.mac_key (iv ++ bytes) ≡ some mac
      → decrypt_enc_string lib (enc_string_of lib iv bytes mac) key ≡ decrypt_cbc lib key iv bytes
  unfolding decrypt_enc_string split_once parse_u8
  decrypt-enc_string_of key iv bytes mac h =
      ap (λ parts. decrypt_type2 lib parts key)
        (split-parts (lib.encode_base64 iv) (lib.encode_base64 bytes) (lib.encode_base64 mac)
          (laws.base64_part iv) (laws.base64_part bytes) (laws.base64_part mac))
      ∙ decrypt_type2-parts key iv bytes mac h

  decrypt_cbc-encrypt :
      (key : SymmetricKey) (iv plain : Text)
      → lib.cbc_accepts key.enc_key iv ≡ true
      → decrypt_cbc lib key iv (lib.cbc_encrypt key.enc_key iv plain) ≡ ok plain
  decrypt_cbc-encrypt key iv plain h = rw (h, laws.cbc key.enc_key iv plain h) refl

  -- What was encrypted under a key is read back under that key, whatever the random bytes were. The
  -- crates keep their promises.
  pub decrypt-encrypt :
      (iv plain : Text) (key : SymmetricKey) (encrypted : Text)
      → encrypt_enc_string lib iv plain key ≡ ok encrypted
      → decrypt_enc_string lib encrypted key ≡ ok plain
  unfolding encrypt_enc_string
  decrypt-encrypt iv plain key encrypted e = elim (Bool-cases (lib.cbc_accepts key.enc_key iv)) [
    | inr refused ↦ absurd (ground (arith, refused))
    | inl accepted ↦
        elim (Option-cases
          (lib.hmac_sha256 key.mac_key (iv ++ lib.cbc_encrypt key.enc_key iv plain))) [
            | inl refused ↦ absurd (ground (arith, accepted, refused))
            | inr (mac, h) ↦
                let same : enc_string_of lib iv (lib.cbc_encrypt key.enc_key iv plain) mac
                    ≡ encrypted =
                  ground (arith, accepted, h) in
                rw (← same)
                  (decrypt-enc_string_of key iv _ mac h ∙ decrypt_cbc-encrypt key iv plain accepted)
          ]
  ]

-- A payload of three parts whose code is that of the other two under the key, and the plain bytes
-- that the parts hold.
pub record IsAuthentic (lib : CryptoLib) (key : SymmetricKey) (payload plain : Text) : Type 0 where
  pub fields : Text × Text × Text
  pub iv : Text
  pub bytes : Text
  pub mac : Text
  pub parts : split b'|' payload ≡ fields.0 ∷ fields.1 ∷ fields.2 ∷ []
  pub iv_decoded : lib.decode_base64 fields.0 ≡ some iv
  pub bytes_decoded : lib.decode_base64 fields.1 ≡ some bytes
  pub mac_decoded : lib.decode_base64 fields.2 ≡ some mac
  pub fits : lib.hmac_sha256 key.mac_key (iv ++ bytes) ≡ some mac
  pub opens : lib.cbc_decrypt key.enc_key iv bytes ≡ some plain

module _ (lib : CryptoLib) (key : SymmetricKey) where
  decrypt_cbc_opens :
      (iv bytes plain : Text)
      → decrypt_cbc lib key iv bytes ≡ ok plain
      → lib.cbc_decrypt key.enc_key iv bytes ≡ some plain
  decrypt_cbc_opens iv bytes plain e = ground arith

  type2-IsAuthentic :
      (payload plain : Text) (parts : List Text)
      → split b'|' payload ≡ parts
      → decrypt_type2 lib parts key ≡ ok plain
      → IsAuthentic lib key payload plain
  unfolding decrypt_type2
  type2-IsAuthentic payload plain [] s e = absurd (ground (arith, e))
  type2-IsAuthentic payload plain (a ∷ []) s e = absurd (ground (arith, e))
  type2-IsAuthentic payload plain (a ∷ b ∷ []) s e = absurd (ground (arith, e))
  type2-IsAuthentic payload plain (a ∷ b ∷ c ∷ d ∷ ds) s e = absurd (ground (arith, e))
  type2-IsAuthentic payload plain (a ∷ b ∷ c ∷ []) s e = elim (Option-cases (lib.decode_base64 a)) [
    | inl h ↦ absurd (ground (arith, e, h))
    | inr (iv, h) ↦ elim (Option-cases (lib.decode_base64 b)) [
      | inl k ↦ absurd (ground (arith, e, h, k))
      | inr (bytes, k) ↦ elim (Option-cases (lib.decode_base64 c)) [
        | inl l ↦ absurd (ground (arith, e, h, k, l))
        | inr (mac, l) ↦ elim (Option-cases (lib.hmac_sha256 key.mac_key (iv ++ bytes))) [
          | inl n ↦ absurd (ground (arith, e, h, k, l, n))
          | inr (expected, n) ↦ elim (Bool-cases (text_eq expected mac)) [
            | inr u ↦ absurd (ground (arith, e, h, k, l, n, u))
            | inl u ↦ record {
              fields = (a, b, c);
              iv = iv;
              bytes = bytes;
              mac = mac;
              parts = s;
              iv_decoded = h;
              bytes_decoded = k;
              mac_decoded = l;
              fits = n ∙ ap some ((text_eq_iff expected mac).0 u);
              opens = decrypt_cbc_opens iv bytes plain (ground (arith, e, h, k, l, n, u));
            }
          ]
        ]
      ]
    ]
  ]

  type-IsAuthentic :
      (enc_type : ℕ) (payload plain : Text)
      → decrypt_type lib enc_type payload key ≡ ok plain
      → (enc_type ≡ 0) ⊎ IsAuthentic lib key payload plain
  type-IsAuthentic enc_type payload plain e = elim (Bool-cases (enc_type == 0)) [
    | inl z ↦ inl ((==_iff enc_type 0).0 z)
    | inr z ↦ elim (Bool-cases (enc_type == 2)) [
      | inl t ↦
          inr (type2-IsAuthentic payload plain (split b'|' payload) refl (ground (arith, e, z, t)))
      | inr t ↦ absurd (ground (arith, e, z, t))
    ]
  ]

  -- Where a text is decrypted, what stands before its first dot is the type 0, or the rest has three
  -- parts, and the last is the code of the other two under the key.
  pub decrypt-IsAuthentic :
      (enc_string plain : Text)
      → decrypt_enc_string lib enc_string key ≡ ok plain
      → (head payload : Text) × (split_once b'.' enc_string ≡ some (head, payload))
        × ((parse_u8 head ≡ some 0) ⊎ IsAuthentic lib key payload plain)
  unfolding decrypt_enc_string
  decrypt-IsAuthentic enc_string plain e = elim (Option-cases (split_once b'.' enc_string)) [
    | inl h ↦ absurd (ground (arith, e, h))
    | inr ((head, payload), h) ↦ elim (Option-cases (parse_u8 head)) [
      | inl k ↦ absurd (ground (arith, e, h, k))
      | inr (enc_type, k) ↦ (
        head,
        payload,
        h,
        elim (type-IsAuthentic enc_type payload plain (ground (arith, e, h, k))) [
          | inl z ↦ inl (k ∙ ap some z)
          | inr a ↦ inr a
        ],
      )
    ]
  ]
