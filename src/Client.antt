-- ===== src/Client.antt =====
-- crates/sshwarden-api/src/client.rs and models.rs: the client of the server, whose tokens and key are
-- its state, and the keys of a sync. What the server answers is the record `Server`: a request fails,
-- or is refused, or brings what serde_json reads in its body. Times are seconds.
mod Keys
mod Tokens
mod Tests
use sshwarden.Base.{
  ℕ, ◌+◌, ◌-◌, Bool, true, false, not, ◌&&◌, ◌||◌, List, [], ◌∷◌, ◌++◌, Option, none, some, is_some,
  is_none, ltb, leb, ◌==◌, if◌then◌else◌, Text, codes, length, trim, trim_end_with, retain, Result,
  ok, err, ensure, ◌>>=◌, ◌>>◌,
}
use sshwarden.Bindings.{is_empty}
use sshwarden.Crypto.{
  CryptoLib, CryptoError, SymmetricKey, PreloginResponse, derive_master_key, derive_password_hash,
  decrypt_user_key, decrypt_enc_string, decrypt_enc_string_to_string, split_key,
}

pub record BitwardenClient : Type 0 where
  pub api_url : Text
  pub identity_url : Text
  pub base_url : Text
  pub access_token : Option Text
  pub refresh_token : Option Text
  pub token_expiry : Option ℕ
  pub device_id : Text
  pub user_key : Option SymmetricKey

pub record TokenResponse : Type 0 where
  pub access_token : Text
  pub expires_in : ℕ
  pub refresh_token : Option Text
  pub key : Option Text

pub data CipherType : Type 0 where
  login secure_note card identity ssh_key : CipherType
  unknown : ℕ → CipherType

pub record SshKeyData : Type 0 where
  pub private_key : Text
  pub public_key : Text

pub record Cipher : Type 0 where
  pub id : Text
  pub cipher_type : CipherType
  pub name : Option Text
  pub deleted_date : Option Text
  pub archived_date : Option Text
  pub ssh_key_data : Option SshKeyData
  pub key : Option Text

pub record DecryptedSshKey : Type 0 where
  pub private_key_pem : Text
  pub public_key_openssh : Text
  pub name : Text
  pub cipher_id : Text

-- `CipherType::deserialize`.
unfoldable pub cipher_type_of : ℕ → CipherType
cipher_type_of v =
    if v == 1
    then login
    else if v == 2
    then secure_note
    else if v == 3
    then card
    else if v == 4
    then identity
    else if v == 5
    then ssh_key
    else unknown v

pub data ClientError : Type 0 where
  not_authenticated no_user_key no_refresh_token no_token_key no_ssh_key_data : ClientError
  request_failed unreadable_reply : ClientError
  refused : Text → ClientError
  crypto : CryptoError → ClientError

abbrev pub Reply : Type 0 → Type 0
Reply A = Result ClientError A

-- What the server answers: `request_failed`, `refused` or `unreadable_reply`, or a body.
pub record Server : Type 0 where
  pub prelogin : Text → Text → Reply PreloginResponse
  -- the user's password at the address, and the device
  pub password_token : Text → Text → Text → Text → Reply TokenResponse
  pub refreshed_token : Text → Text → Reply TokenResponse
  pub sync : Text → Text → Reply (List Cipher)
  -- the text at `environment.notifications` of the configuration
  pub configured_notifications : Text → Reply (Option Text)

abbrev pub lift : {A : Type 0} → Result CryptoError A → Reply A
lift r = elim r [ err failure ↦ err (crypto failure) | ok value ↦ ok value ]

abbrev pub present : {A : Type 0} → Option A → ClientError → Reply A
present o failure = elim o [ none ↦ err failure | some value ↦ ok value ]

unfoldable pub new_with_device_id : Text → Text → Text → Text → BitwardenClient
new_with_device_id base_url api_url identity_url device_id = record {
  api_url = api_url;
  identity_url = identity_url;
  base_url = trim_end_with (λ c. c == b'/') base_url;
  access_token = none;
  refresh_token = none;
  token_expiry = none;
  device_id = device_id;
  user_key = none;
}

abbrev pub set_access_token : Text → BitwardenClient → BitwardenClient
set_access_token token client = record client { access_token = some token }

abbrev pub set_refresh_token : Text → BitwardenClient → BitwardenClient
set_refresh_token token client = record client { refresh_token = some token }

abbrev pub set_user_key : SymmetricKey → BitwardenClient → BitwardenClient
set_user_key key client = record client { user_key = some key }

abbrev pub clear_user_key : BitwardenClient → BitwardenClient
clear_user_key client = record client { user_key = none }

-- Within five minutes of its end a token counts as expiring; one without an end always does.
unfoldable pub is_token_expiring_soon : ℕ → BitwardenClient → Bool
is_token_expiring_soon now client = elim client.token_expiry [
  | none ↦ is_some client.access_token
  | some expiry ↦ if leb expiry now then true else ltb (expiry - now) 300
]

-- The tokens of a login, as they are set before the key is looked at.
abbrev pub logged_in : ℕ → TokenResponse → BitwardenClient → BitwardenClient
logged_in now reply client = record client {
  access_token = some reply.access_token;
  refresh_token = reply.refresh_token;
  token_expiry = some (now + reply.expires_in);
}

abbrev pub refreshed : ℕ → TokenResponse → BitwardenClient → BitwardenClient
refreshed now reply client = record client {
  access_token = some reply.access_token;
  refresh_token = elim reply.refresh_token [
    | none ↦ client.refresh_token
    | some token ↦ some token
  ];
  token_expiry = some (now + reply.expires_in);
}

-- The client afterwards, and the outcome.
unfoldable pub refresh_access_token :
    Server → ℕ → BitwardenClient → BitwardenClient × Reply (Unit {0})
refresh_access_token server now client = elim client.refresh_token [
  | none ↦ (client, err no_refresh_token)
  | some token ↦ elim (server.refreshed_token client.identity_url token) [
    | err failure ↦ (client, err failure)
    | ok reply ↦ (refreshed now reply client, ok tt)
  ]
]

unfoldable pub discover_notifications_url : Server → BitwardenClient → Reply (Option Text)
discover_notifications_url server client =
    server.configured_notifications client.base_url >>= λ found.
    ok (elim found [ none ↦ none | some url ↦ if is_empty (trim url) then none else some url ])

abbrev pub is_ssh_key : CipherType → Bool
is_ssh_key t = elim t [ ssh_key ↦ true | _ ↦ false ]

abbrev pub is_wanted : Cipher → Bool
is_wanted cipher =
    is_ssh_key cipher.cipher_type && is_none cipher.deleted_date && is_none cipher.archived_date

module _ (lib : CryptoLib) where
  unfoldable pub take_user_key :
      Text → TokenResponse → BitwardenClient → BitwardenClient × Reply (Unit {0})
  take_user_key master_key reply client = elim reply.key [
    | none ↦ (client, err no_token_key)
    | some encrypted ↦ elim (decrypt_user_key lib encrypted master_key) [
      | err failure ↦ (client, err (crypto failure))
      | ok key ↦ (set_user_key key client, ok tt)
    ]
  ]

  -- The address of the token, the user, the hash of the password, and the device.
  abbrev pub asked_token : Server → Text → Text → Text → BitwardenClient → Reply TokenResponse
  asked_token server email password master_key client =
      server.password_token client.identity_url email (derive_password_hash lib master_key password)
        client.device_id

  unfoldable pub login_password :
      Server → ℕ → Text → Text → BitwardenClient → BitwardenClient × Reply (Unit {0})
  unfolding take_user_key
  login_password server now email password client =
      elim (server.prelogin client.identity_url email) [
        | err failure ↦ (client, err failure)
        | ok prelogin ↦ elim (derive_master_key lib password email prelogin) [
          | err failure ↦ (client, err (crypto failure))
          | ok master_key ↦ elim (asked_token server email password master_key client) [
            | err failure ↦ (client, err failure)
            | ok reply ↦ take_user_key master_key reply (logged_in now reply client)
          ]
        ]
      ]

  abbrev pub effective_key : SymmetricKey → Option Text → Reply SymmetricKey
  effective_key user_key encrypted = elim encrypted [
    | none ↦ ok user_key
    | some cipher_key ↦ lift (decrypt_enc_string lib cipher_key user_key >>= split_key)
  ]

  abbrev pub name_of : SymmetricKey → Option Text → Text
  name_of key name = elim name [
    | none ↦ codes "unnamed"
    | some encrypted ↦ elim (decrypt_enc_string_to_string lib encrypted key) [
      | err failure ↦ codes "unnamed"
      | ok plain ↦ plain
    ]
  ]

  unfoldable pub decrypt_ssh_cipher : SymmetricKey → Cipher → Reply DecryptedSshKey
  decrypt_ssh_cipher user_key cipher = do
    key ← effective_key user_key cipher.key
    parts ← present cipher.ssh_key_data no_ssh_key_data
    private_key ← lift (decrypt_enc_string_to_string lib parts.private_key key)
    public_key ← lift (decrypt_enc_string_to_string lib parts.public_key key)
    ok (record {
      private_key_pem = private_key;
      public_key_openssh = public_key;
      name = name_of key cipher.name;
      cipher_id = cipher.id;
    })

  -- The ciphers that can be decrypted; the others are skipped.
  unfoldable pub decrypt_all : SymmetricKey → List Cipher → List DecryptedSshKey
  unfolding decrypt_ssh_cipher
  decrypt_all user_key [] = []
  decrypt_all user_key (cipher ∷ ciphers) = elim (decrypt_ssh_cipher user_key cipher) [
    | err failure ↦ decrypt_all user_key ciphers
    | ok key ↦ key ∷ decrypt_all user_key ciphers
  ]

  unfoldable pub sync_ssh_keys : Server → BitwardenClient → Reply (List DecryptedSshKey)
  unfolding decrypt_all
  sync_ssh_keys server client = do
    access_token ← present client.access_token not_authenticated
    user_key ← present client.user_key no_user_key
    ciphers ← server.sync client.api_url access_token
    ok (decrypt_all user_key (retain is_wanted ciphers))
