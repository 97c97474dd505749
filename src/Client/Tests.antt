-- ===== src/Client/Tests.antt =====
-- Runs of the client.
use sshwarden.Base.{[], ◌∷◌, some, none, Text, codes, ok, err}
use sshwarden.Crypto.{SymmetricKey, enc_string_of}
use sshwarden.Crypto.Example.{example}
use sshwarden.Client.{
  BitwardenClient, TokenResponse, Cipher, SshKeyData, DecryptedSshKey, ssh_key, Server,
  request_failed,
}

abbrev user : SymmetricKey
user = record { enc_key = 1 ∷ []; mac_key = 2 ∷ [] }

abbrev seal : Text → Text
seal plain = enc_string_of example [] plain (2 ∷ plain)

abbrev plain_key : DecryptedSshKey
plain_key = record {
  private_key_pem = codes "p";
  public_key_openssh = codes "o";
  name = codes "n";
  cipher_id = codes "i1";
}

abbrev key_parts : SshKeyData
key_parts = record { private_key = seal (codes "p"); public_key = seal (codes "o") }

abbrev key_cipher : Cipher
key_cipher = record {
  id = codes "i1";
  cipher_type = ssh_key;
  name = some (seal (codes "n"));
  deleted_date = none;
  archived_date = none;
  ssh_key_data = some key_parts;
  key = none;
}

abbrev deleted : Cipher
deleted = record key_cipher { deleted_date = some (codes "2024") }

abbrev reply : TokenResponse
reply = record { access_token = codes "t2"; expires_in = 3600; refresh_token = none; key = none }

abbrev server : Server
server = record {
  prelogin = λ url email. err request_failed;
  password_token = λ url email hash device. err request_failed;
  refreshed_token = λ url token. ok reply;
  sync = λ url token. ok (deleted ∷ key_cipher ∷ []);
  configured_notifications = λ url. ok none;
}

abbrev broken : Server
broken = record server { refreshed_token = λ url token. err request_failed }

abbrev client : BitwardenClient
client = record {
  api_url = codes "a";
  identity_url = codes "b";
  base_url = codes "c";
  access_token = some (codes "t1");
  refresh_token = some (codes "r1");
  token_expiry = none;
  device_id = codes "d";
  user_key = some user;
}
