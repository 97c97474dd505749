-- ===== src/RequestParser.antt =====
-- crates/sshwarden-agent/src/request_parser.rs: what kind of signature a client asks for. Bytes are
-- numbers below 256, and the namespace is kept as its UTF-8 bytes.
pub mod Classify
mod Tests
use sshwarden.Base.{
  ℕ, ◌+◌, ◌*◌, Bool, true, false, List, [], ◌∷◌, ltb, ◌==◌, if◌then◌else◌, Text, codes, text_eq,
  length, take, drop, is_utf8, Result, ok, err, ensure, ◌>>=◌, ◌>>◌,
}

pub data OperationKind : Type 0 where
  ssh_authentication git_signing file_signing ssh_signature : OperationKind

unfoldable pub as_str : OperationKind → Text
as_str ssh_authentication = codes "ssh_authentication"
as_str git_signing = codes "git_signing"
as_str file_signing = codes "file_signing"
as_str ssh_signature = codes "ssh_signature"

pub data SshAgentSignRequest : Type 0 where
  ssh_sig_request : Text → SshAgentSignRequest
  sign_request : SshAgentSignRequest

pub data ParseError : Type 0 where
  missing_version invalid_namespace : ParseError

pub operation_kind_from_namespace : Text → OperationKind
operation_kind_from_namespace namespace =
    if text_eq namespace (codes "git")
    then git_signing
    else if text_eq namespace (codes "file")
    then file_signing
    else if text_eq namespace (codes "ssh")
    then ssh_authentication
    else ssh_signature

pub operation_kind : SshAgentSignRequest → OperationKind
unfolding operation_kind_from_namespace
operation_kind sign_request = ssh_authentication
operation_kind (ssh_sig_request namespace) = operation_kind_from_namespace namespace

abbrev pub magic_header : Text
magic_header = codes "SSHSIG"

-- `try_get_u32`: the big-endian number in the first four bytes, and what follows it.
pub try_get_u32 : Text → Result ParseError (ℕ × Text)
try_get_u32 (a ∷ b ∷ c ∷ d ∷ rest) = ok (((a * 256 + b) * 256 + c) * 256 + d, rest)
try_get_u32 _ = err missing_version

-- `take_while(|&x| x != 0)`.
pub take_namespace : Text → Text
take_namespace [] = []
take_namespace (x ∷ xs) = let rest = take_namespace xs in if x == 0 then [] else x ∷ rest

-- What stands behind the magic header.
pub parse_sshsig : Text → Result ParseError SshAgentSignRequest
unfolding try_get_u32 take_namespace is_utf8
parse_sshsig payload = do
  (_, rest) ← try_get_u32 payload
  ensure (is_utf8 (take_namespace rest)) invalid_namespace
  ok (ssh_sig_request (take_namespace rest))

unfoldable pub parse_request : Text → Result ParseError SshAgentSignRequest
unfolding parse_sshsig text_eq
parse_request payload =
    if ltb (length payload) (length magic_header)
    then ok sign_request
    else if text_eq (take (length magic_header) payload) magic_header
    then parse_sshsig (drop (length magic_header) payload)
    else ok sign_request
