-- ===== src/Crypto/Tests.antt =====
-- Runs of the model of crypto.rs.
use sshwarden.Base.{◌≡◌, ◌⊎◌, refl, [], ◌∷◌, ◌++◌, some, none, Text, codes, text_eq, ok, err}
use sshwarden.Crypto.{
  SymmetricKey, split_once, split, parse_u8, unsupported_type, wrong_parts, encrypt_enc_string,
  decrypt_type0, decrypt_type2, decrypt_enc_string,
}
use sshwarden.Crypto.EncString.{decrypt-encrypt, IsAuthentic, decrypt-IsAuthentic}
use sshwarden.Crypto.Example.{example, example_laws, encode}

abbrev key : SymmetricKey
key = record { enc_key = 7 ∷ []; mac_key = 9 ∷ [] }

parses_type : parse_u8 (codes "+02") ≡ some 2
unfolding parse_u8
parses_type = refl

too_large : parse_u8 (codes "258") ≡ none
unfolding parse_u8
too_large = refl

unknown_type : decrypt_enc_string example (codes "3.bb|b") key ≡ err (unsupported_type 3)
unfolding decrypt_enc_string parse_u8
unknown_type = refl

unauthenticated : decrypt_enc_string example (codes "0.ab|aab") key ≡ ok (2 ∷ [])
unfolding decrypt_enc_string parse_u8 decrypt_type0 split
unauthenticated = refl

missing_code : decrypt_enc_string example (codes "2.ab|aab") key ≡ err wrong_parts
unfolding decrypt_enc_string parse_u8 decrypt_type2 split
missing_code = refl

abbrev sealed : Text
sealed =
    b'2'
    ∷ b'.'
    ∷ (encode (1 ∷ []) ++ (b'|' ∷ (encode (4 ∷ 5 ∷ []) ++ (b'|' ∷ encode (9 ∷ 1 ∷ 4 ∷ 5 ∷ [])))))

decrypt-encrypt_example : decrypt_enc_string example sealed key ≡ ok (4 ∷ 5 ∷ [])
unfolding encrypt_enc_string
decrypt-encrypt_example = decrypt-encrypt example example_laws (1 ∷ []) (4 ∷ 5 ∷ []) key sealed refl

decrypt-IsAuthentic_example :
    (head payload : Text) × (split_once b'.' sealed ≡ some (head, payload))
    × ((parse_u8 head ≡ some 0) ⊎ IsAuthentic example key payload (4 ∷ 5 ∷ []))
unfolding decrypt_enc_string parse_u8 decrypt_type2 split text_eq
decrypt-IsAuthentic_example = decrypt-IsAuthentic example key sealed (4 ∷ 5 ∷ []) refl
