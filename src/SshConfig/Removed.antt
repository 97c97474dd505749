-- ===== src/SshConfig/Removed.antt =====
-- The loop that removes the Include line.
use mathlib.Core.Path.{subst}
use sshwarden.Base.{
  if-cases, ◌≡◌, refl, sym, ap, ◌∙◌, inl, inr, Bool, true, false, ◌||◌, ◌&&◌, List, [], ◌∷◌, arith,
  Bool-cases, All, Text, text_eq, text_eq_iff, trim, trim_with, trim_start_with, trim_end_with, any,
  lines, fold, OneLine, any-join, trim-chop_cr,
}
use sshwarden.Bindings.{is_empty}
use sshwarden.SshConfig.{marker, is_ssh_include_directive}
use sshwarden.SshConfig.Remove.{Removing, pop_marker, reverse_onto, remove_line, removed_text}
use sshwarden.SshConfig.Rounds.{reads, reads-differs}

-- A list of which a test holds nowhere, or somewhere, seen after the markers are popped.
module _ (p : Text → Bool) where
  pop_marker-none : (kept : List Text) → any p kept ≡ false → any p (pop_marker kept) ≡ false
  unfolding pop_marker any
  pop_marker-none [] h = h
  pop_marker-none (last ∷ kept) h =
      if-cases (λ x. any p x ≡ false) (is_empty (trim last))
        (λ e. pop_marker-none kept (ground (arith, h)))
        (λ e.
          if-cases (λ x. any p x ≡ false) (text_eq (trim last) marker) (λ f. ground (arith, h))
            (λ f. h))

  pub any-reverse_onto :
      (kept ls : List Text) → any p (reverse_onto ls kept) ≡ (any p kept || any p ls)
  unfolding reverse_onto any
  any-reverse_onto [] ls = refl
  any-reverse_onto (last ∷ kept) ls = any-reverse_onto kept (last ∷ ls) ∙ ground arith

pub reverse_onto-All :
    (P : Text → Type 0) (kept ls : List Text) → All P kept → All P ls → All P (reverse_onto ls kept)
unfolding reverse_onto
reverse_onto-All P [] ls h k = k
reverse_onto-All P (last ∷ kept) ls h k = reverse_onto-All P kept (last ∷ ls) h.1 (h.0, k)

pop_marker-All : (P : Text → Type 0) (kept : List Text) → All P kept → All P (pop_marker kept)
unfolding pop_marker
pop_marker-All P [] h = h
pop_marker-All P (last ∷ kept) h =
    if-cases (All P) (is_empty (trim last)) (λ e. pop_marker-All P kept h.1)
      (λ e. if-cases (All P) (text_eq (trim last) marker) (λ f. h.1) (λ f. h))

-- A line that is neither blank nor the marker is not popped.
pop_marker-reads :
    (t : Text) (kept : List Text)
    → is_empty t ≡ false
    → text_eq t marker ≡ false
    → any (reads t) kept ≡ true
    → any (reads t) (pop_marker kept) ≡ true
unfolding pop_marker any
pop_marker-reads t [] f m h = h
pop_marker-reads t (last ∷ kept) f m h =
    if-cases (λ x. any (reads t) x ≡ true) (is_empty (trim last))
      (λ e. pop_marker-reads t kept f m (ground (arith, h, reads-differs is_empty last t e f)))
      (λ e.
        if-cases (λ x. any (reads t) x ≡ true) (text_eq (trim last) marker)
          (λ g. ground (arith, h, reads-differs (λ x. text_eq x marker) last t g m)) (λ g. h))

module _ (ours : Text → Bool) where
  -- A line that is taken for the program's own.
  abbrev pub mine : Text → Bool
  mine line = ours (trim line)

  -- The lines that are kept are lines, and none of them is the program's.
  abbrev pub Clean : Removing → Type 0
  Clean r = All OneLine r.kept × (any mine r.kept ≡ false)

  remove_line-Clean :
      (r : Removing) (line : Text)
      → ours marker ≡ false
      → OneLine line
      → Clean r
      → Clean (remove_line ours r line)
  unfolding remove_line any
  remove_line-Clean r line m l c =
      if-cases Clean (text_eq (trim line) marker)
        (λ e. (
          (l, c.0),
          ground (
            arith,
            c.1,
            subst (λ x. ours x ≡ false) (sym ((text_eq_iff (trim line) marker).0 e)) m,
          ),
        ))
        (λ e.
          if-cases Clean
            (ours (trim line) || (r.skip_marker && is_ssh_include_directive (trim line)))
            (λ f.
              if-cases (λ x. All OneLine x × (any mine x ≡ false)) r.skip_marker
                (λ s. (pop_marker-All OneLine r.kept c.0, pop_marker-none mine r.kept c.1))
                (λ s. c))
            (λ f. ((l, c.0), ground (arith, c.1, f))))

  pub fold-Clean :
      (ls : List Text) (r : Removing)
      → ours marker ≡ false
      → All OneLine ls
      → Clean r
      → Clean (fold (remove_line ours) r ls)
  unfolding fold
  fold-Clean [] r m l c = c
  fold-Clean (line ∷ ls) r m l c = fold-Clean ls _ m l.1 (remove_line-Clean r line m l.0 c)

  pub removed_text-none :
      (r : Removing) → ours [] ≡ false → Clean r → any mine (lines (removed_text ours r)) ≡ false
  unfolding removed_text trim trim_with trim_end_with trim_start_with
  removed_text-none r blank c =
      any-join mine (λ l. ap ours (trim-chop_cr l)) blank (reverse_onto [] r.kept)
        (reverse_onto-All OneLine r.kept [] c.0 tt)
      ∙ any-reverse_onto mine r.kept []
      ∙ unfold any in ground (arith, c.1)

  -- A line that is neither the marker, nor an Include line, nor the program's is kept.
  remove_line-reads :
      (r : Removing) (line t : Text)
      → is_empty t ≡ false
      → text_eq t marker ≡ false
      → (is_ssh_include_directive t || ours t) ≡ false
      → (any (reads t) r.kept || reads t line) ≡ true
      → any (reads t) (remove_line ours r line).kept ≡ true
  unfolding remove_line any
  remove_line-reads r line t f m foreign h =
      if-cases (λ (x : Removing). any (reads t) x.kept ≡ true) (text_eq (trim line) marker)
        (λ e. ground (arith, h, reads-differs (λ x. text_eq x marker) line t e m))
        (λ e.
          if-cases (λ (x : Removing). any (reads t) x.kept ≡ true)
            (ours (trim line) || (r.skip_marker && is_ssh_include_directive (trim line)))
            (λ g.
              let k : any (reads t) r.kept ≡ true = ground (
                arith,
                h,
                reads-differs (λ x. is_ssh_include_directive x || ours x) line t (ground (arith, g))
                    foreign,
              ) in
              if-cases (λ x. any (reads t) x ≡ true) r.skip_marker
                (λ s. pop_marker-reads t r.kept f m k) (λ s. k))
            (λ g. ground (arith, h)))

  pub fold-kept :
      (ls : List Text) (r : Removing) (t : Text)
      → is_empty t ≡ false
      → text_eq t marker ≡ false
      → (is_ssh_include_directive t || ours t) ≡ false
      → (any (reads t) r.kept || any (reads t) ls) ≡ true
      → any (reads t) (fold (remove_line ours) r ls).kept ≡ true
  unfolding fold any
  fold-kept [] r t f m foreign h = ground (arith, h)
  fold-kept (line ∷ ls) r t f m foreign h =
      fold-kept ls (remove_line ours r line) t f m foreign
        (elim (Bool-cases (any (reads t) r.kept || reads t line)) [
          | inl e ↦ ground (arith, remove_line-reads r line t f m foreign e)
          | inr e ↦ ground (arith, h, e)
        ])

  -- Where nothing was removed, there was nothing to remove.
  remove_line_removed :
      (r : Removing) (line : Text)
      → ours marker ≡ false
      → (remove_line ours r line).removed_any ≡ false
      → (mine line ≡ false) × (r.removed_any ≡ false)
  unfolding remove_line
  remove_line_removed r line m =
      let Holds : Removing → Type 0 =
        λ x. x.removed_any ≡ false → (mine line ≡ false) × (r.removed_any ≡ false) in
      if-cases Holds (text_eq (trim line) marker)
        (λ e n. (subst (λ x. ours x ≡ false) (sym ((text_eq_iff (trim line) marker).0 e)) m, n))
        (λ e.
          if-cases Holds
            (ours (trim line) || (r.skip_marker && is_ssh_include_directive (trim line)))
            (λ f n. ground (arith, n)) (λ f n. (ground (arith, f), n)))

  pub fold_removed :
      (ls : List Text) (r : Removing)
      → ours marker ≡ false
      → (fold (remove_line ours) r ls).removed_any ≡ false
      → (any mine ls ≡ false) × (r.removed_any ≡ false)
  unfolding fold any
  fold_removed [] r m h = (refl, h)
  fold_removed (line ∷ ls) r m h =
      let rest = fold_removed ls (remove_line ours r line) m h in
      let here = remove_line_removed r line m rest.1 in (ground (arith, rest.0, here.0), here.1)
