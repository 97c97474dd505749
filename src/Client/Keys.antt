-- ===== src/Client/Keys.antt =====
-- The keys of a sync, as they were encrypted for the user.
use sshwarden.Base.{◌≡◌, true, false, List, [], ◌∷◌, ◌++◌, Option, none, some, Text, is_utf8, ok}
use sshwarden.Crypto.{CryptoLib, SymmetricKey, encrypt_enc_string}
use sshwarden.Crypto.Keys.{IsKey}
use sshwarden.Client.{Cipher, SshKeyData, DecryptedSshKey, is_wanted}

module _ (lib : CryptoLib) where
  -- A text and its encryption under a key.
  pub record Encrypts (key : SymmetricKey) (plain encrypted : Text) : Type 0 where
    pub iv : Text
    pub text : is_utf8 plain ≡ true
    pub made : encrypt_enc_string lib iv plain key ≡ ok encrypted

  -- The key of a cipher: the user's, or one of its own that is encrypted for the user.
  pub data Keyed (user_key key : SymmetricKey) (encrypted : Option Text) : Type 0 where
    by_user : encrypted ≡ none → key ≡ user_key → Keyed user_key key encrypted
    by_cipher :
        (iv text : Text)
        → encrypted ≡ some text
        → IsKey key
        → encrypt_enc_string lib iv (key.enc_key ++ key.mac_key) user_key ≡ ok text
        → Keyed user_key key encrypted

  -- A cipher that holds an SSH key.
  pub record Seals (user_key : SymmetricKey) (cipher : Cipher) (key : DecryptedSshKey)
      : Type 0 where
    pub wanted : is_wanted cipher ≡ true
    pub cipher_key : SymmetricKey
    pub keyed : Keyed user_key cipher_key cipher.key
    pub parts : SshKeyData
    pub has_parts : cipher.ssh_key_data ≡ some parts
    pub private : Encrypts cipher_key key.private_key_pem parts.private_key
    pub shared : Encrypts cipher_key key.public_key_openssh parts.public_key
    pub encrypted_name : Text
    pub has_name : cipher.name ≡ some encrypted_name
    pub named : Encrypts cipher_key key.name encrypted_name
    pub same_id : cipher.id ≡ key.cipher_id

  -- A vault that holds the keys in their order, among ciphers of other kinds, deleted or archived.
  pub data Holds (user_key : SymmetricKey) : List Cipher → List DecryptedSshKey → Type 0 where
    empty : Holds user_key [] []
    other :
        {cipher : Cipher} {ciphers : List Cipher} {keys : List DecryptedSshKey}
        → is_wanted cipher ≡ false
        → Holds user_key ciphers keys
        → Holds user_key (cipher ∷ ciphers) keys
    sealed :
        {cipher : Cipher} {ciphers : List Cipher} {key : DecryptedSshKey}
        {keys : List DecryptedSshKey}
        → Seals user_key cipher key
        → Holds user_key ciphers keys
        → Holds user_key (cipher ∷ ciphers) (key ∷ keys)
