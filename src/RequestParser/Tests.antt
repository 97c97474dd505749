-- ===== src/RequestParser/Tests.antt =====
-- Concrete payloads for crates/sshwarden-agent/src/request_parser.rs.
use sshwarden.Base.{◌≡◌, ◌≢◌, ◌↔◌, refl, ◌∷◌, ◌++◌, Text, codes, ok}
use sshwarden.RequestParser.{sign_request, magic_header, parse_request}
use sshwarden.RequestParser.Classify.{parse_request-sign_request}

abbrev git : Text
git = codes "git"

abbrev hash_field : Text
hash_field = 0 ∷ 0 ∷ 0 ∷ 6 ∷ codes "sha512"

parse_request-sign_request_example :
    (parse_request (codes "plain") ≡ ok sign_request)
    ↔ ((rest : Text) → codes "plain" ≢ magic_header ++ rest)
parse_request-sign_request_example = parse_request-sign_request (codes "plain")

parse_plain : parse_request (codes "SSHSI") ≡ ok sign_request
unfolding parse_request
parse_plain = refl
