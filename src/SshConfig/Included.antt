-- ===== src/SshConfig/Included.antt =====
-- What writing the Include line does to the lines of the file.
use sshwarden.Base.{
  if-cases, ◌≡◌, sym, ap, ◌∙◌, Bool, true, false, ◌||◌, [], ◌∷◌, ◌++◌, arith, Text, any, lines,
  end_line, fold, lines-OneLine, lines-one, nonempty,
}
use sshwarden.SshConfig.{marker, is_ssh_include_directive}
use sshwarden.SshConfig.Include.{
  Rewriting, rewriting, rewrite_line, front, block, finish, with_include,
}
use sshwarden.SshConfig.Rounds.{
  reads, IsLine, reads-itself, Collected, fold-Collected, fold-reads, search-join, search-end_line,
  search-behind,
}

module _ (ours : Text → Bool) (include : Text) where
  -- What stands in front of the appended block is still read.
  search-block :
      (t s : Text)
      → IsLine t
      → any (reads t) (lines (end_line s ++ 10 ∷ block ours include))
        ≡ (any (reads t) (lines s) || any (reads t) (lines (block ours include)))
  search-block t s h =
      search-behind t h (end_line s) (block ours include)
      ∙ ap (λ b. b || any (reads t) (lines (block ours include))) (search-end_line t h s)

  any-nonempty : IsLine include → any (reads include) (nonempty include) ≡ true
  any-nonempty i =
      elim include as (λ x. IsLine x → any (reads x) (nonempty x) ≡ true) [
        | [] ↦ λ j. ground (arith, j.filled)
        | c ∷ x ↦ λ j. unfold any in ground (arith, reads-itself (c ∷ x) j)
      ]
        i

  include_alone : IsLine include → any (reads include) (lines include) ≡ true
  include_alone i = ap (any (reads include)) (lines-one include i.one_line) ∙ any-nonempty i

  block-include : IsLine include → any (reads include) (lines (block ours include)) ≡ true
  unfolding block
  block-include i =
      search-behind include i marker (include ++ 10 ∷ [])
      ∙ ap (λ b. any (reads include) (lines marker) || b)
          (search-behind include i include []
            ∙ ap (λ b. b || any (reads include) (lines [])) (include_alone i))
      ∙ ground arith

  finish-include :
      (existing : Text) (r : Rewriting)
      → IsLine include
      → Collected ours include r
      → any (reads include) (lines (finish ours include existing r)) ≡ true
  unfolding finish
  finish-include existing r i c =
      if-cases (λ x. any (reads include) (lines x) ≡ true) r.replaced
        (λ e. search-join include i r.rewritten c.0 ∙ c.1 e)
        (λ e.
          search-block include (front ours include existing r) i
          ∙ ap (λ b. any (reads include) (lines (front ours include existing r)) || b)
              (block-include i)
          ∙ ground arith)

  finish-reads :
      (existing : Text) (r : Rewriting) (t : Text)
      → IsLine t
      → Collected ours include r
      → any (reads t) (lines existing) ≡ true
      → any (reads t) r.rewritten ≡ true
      → any (reads t) (lines (finish ours include existing r)) ≡ true
  unfolding finish front
  finish-reads existing r t l c h k =
      let joined = search-join t l r.rewritten c.0 ∙ k in
      if-cases (λ x. any (reads t) (lines x) ≡ true) r.replaced (λ e. joined)
        (λ e.
          search-block t (front ours include existing r) l
          ∙ ap (λ b. b || any (reads t) (lines (block ours include)))
              (if-cases (λ x. any (reads t) (lines x) ≡ true) r.dropped
                (λ d. sym (search-end_line t l _) ∙ joined) (λ d. h)))

  -- The variables after the loop.
  abbrev looped : Text → Rewriting
  looped existing = fold (rewrite_line ours include) rewriting (lines existing)

  looped-Collected : (existing : Text) → IsLine include → Collected ours include (looped existing)
  looped-Collected existing i =
      fold-Collected ours include (lines existing) rewriting i (lines-OneLine existing)
        (tt, λ e. ground (arith, e))

  pub with_include-include :
      (existing : Text)
      → IsLine include
      → any (reads include) (lines (with_include ours include existing)) ≡ true
  unfolding with_include
  with_include-include existing i =
      finish-include existing (looped existing) i (looped-Collected existing i)

  pub with_include-foreign :
      (existing t : Text)
      → IsLine include
      → IsLine t
      → (is_ssh_include_directive t || ours t) ≡ false
      → any (reads t) (lines existing) ≡ true
      → any (reads t) (lines (with_include ours include existing)) ≡ true
  unfolding with_include
  with_include-foreign existing t i l foreign h =
      finish-reads existing (looped existing) t l (looped-Collected existing i) h
        (fold-reads ours include (lines existing) rewriting t foreign (ground (arith, h)))
