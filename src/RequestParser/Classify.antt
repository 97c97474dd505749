-- ===== src/RequestParser/Classify.antt =====
-- How `parse_request` tells SSHSIG blobs from plain payloads.
use sshwarden.Base.{
  ℕ, ◌≡◌, ◌≢◌, refl, ap, ◌∙◌, ◌↔◌, sym, take-append-drop, inl, inr, true, false, [], ◌∷◌, ◌++◌,
  arith, All, text_eq, text_eq_iff, Text, take, drop, length, is_utf8, ok, Bool-cases, ◌==◌,
}
use sshwarden.RequestParser.{
  ssh_sig_request, sign_request, magic_header, take_namespace, parse_sshsig, parse_request,
}

-- A namespace field ends at its first zero byte, or with the payload.
abbrev pub EndsField : Text → Type 0
EndsField [] = Unit
EndsField (x ∷ xs) = x ≡ 0

take_namespace_lem :
    (ns rest : Text)
    → All (λ x. (x == 0) ≡ false) ns
    → EndsField rest
    → take_namespace (ns ++ rest) ≡ ns
unfolding take_namespace
take_namespace_lem [] [] h e = refl
take_namespace_lem [] (x ∷ rest) h e = ground arith
take_namespace_lem (x ∷ ns) rest h e = ground (arith, take_namespace_lem ns rest)

parse_sshsig_lem :
    (a b c d : ℕ) (ns rest : Text)
    → All (λ x. (x == 0) ≡ false) ns
    → is_utf8 ns ≡ true
    → EndsField rest
    → parse_sshsig (a ∷ b ∷ c ∷ d ∷ (ns ++ rest)) ≡ ok (ssh_sig_request ns)
unfolding parse_sshsig
parse_sshsig_lem a b c d ns rest h u e = rw (take_namespace_lem ns rest h e, u)

parse_request-magic : (rest : Text) → parse_request (magic_header ++ rest) ≡ parse_sshsig rest
unfolding parse_request
parse_request-magic rest = ground arith

-- An SSHSIG blob with any version and any well-formed namespace is read as a request for that
-- namespace, whatever follows the namespace field.
pub parse_request-sshsig :
    (a b c d : ℕ) (ns rest : Text)
    → All (λ x. (x == 0) ≡ false) ns
    → is_utf8 ns ≡ true
    → EndsField rest
    → parse_request (magic_header ++ a ∷ b ∷ c ∷ d ∷ (ns ++ rest)) ≡ ok (ssh_sig_request ns)
parse_request-sshsig a b c d ns rest h u e =
    parse_request-magic (a ∷ b ∷ c ∷ d ∷ (ns ++ rest)) ∙ parse_sshsig_lem a b c d ns rest h u e

parse_sshsig-ne-sign_request : (rest : Text) → parse_sshsig rest ≢ ok sign_request
unfolding parse_sshsig
parse_sshsig-ne-sign_request (a ∷ b ∷ c ∷ d ∷ rest) = ground arith
parse_sshsig-ne-sign_request _ = ground arith

-- A payload is treated as plain data to sign exactly when it does not begin with the magic header:
-- no SSHSIG blob, truncated or malformed, passes for a plain request.
pub parse_request-sign_request :
    (payload : Text)
    → (parse_request payload ≡ ok sign_request) ↔ ((rest : Text) → payload ≢ magic_header ++ rest)
parse_request-sign_request payload = (plain, other)
  where
    plain : parse_request payload ≡ ok sign_request → (rest : Text) → payload ≢ magic_header ++ rest
    plain h rest e =
        parse_sshsig-ne-sign_request rest
          (sym (parse_request-magic rest) ∙ ap parse_request (sym e) ∙ h)

    other :
        ((rest : Text) → payload ≢ magic_header ++ rest) → parse_request payload ≡ ok sign_request
    other h = elim (Bool-cases (text_eq (take (length magic_header) payload) magic_header)) [
      | inl same ↦ absurd (
          h (drop (length magic_header) payload) (
            sym (take-append-drop (length magic_header) payload)
            ∙ ap (λ t. t ++ drop (length magic_header) payload) ((text_eq_iff _ _).0 same)))
      | inr differs ↦ unfold parse_request in ground arith
    ]
