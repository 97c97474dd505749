-- ===== src/SshConfig/Rounds.antt =====
-- The loop that writes the Include line, round by round.
use sshwarden.Base.{
  ◌≡◌, refl, inl, inr, Bool, true, false, ◌||◌, List, [], ◌∷◌, ◌++◌, arith, if◌then◌else◌,
  Bool-cases, All, All-append, Text, text_eq, text_eq_refl, text_eq_iff, trim, any, any-append,
  lines, join, end_line, fold, OneLine, any-join, any-end_line, any-behind, trim-chop_cr, chop_cr,
  trim_with, trim_end_with, trim_start_with,
}
use mathlib.Core.Path.{subst}
use sshwarden.Bindings.{is_empty}
use sshwarden.SshConfig.{marker, is_ssh_include_directive}
use sshwarden.SshConfig.Include.{Rewriting, rewrite_line, after_marker, drop_or_keep, keep_line}

-- A line that reads `t` once it is trimmed.
abbrev pub reads : Text → Text → Bool
reads t line = text_eq (trim line) t

-- A text that is a line of its own.
pub record IsLine (t : Text) : Type 0 where
  pub one_line : OneLine t
  pub trimmed : trim t ≡ t
  pub filled : is_empty t ≡ false

pub reads-chop_cr : (t l : Text) → reads t (chop_cr l) ≡ reads t l
reads-chop_cr t l = rw trim-chop_cr refl

pub reads-blank : (t : Text) → is_empty t ≡ false → reads t [] ≡ false
unfolding text_eq trim trim_with trim_end_with trim_start_with
reads-blank [] h = ground arith
reads-blank (c ∷ t) h = refl

module _ (t : Text) (h : IsLine t) where
  pub search-join :
      (ls : List Text)
      → All OneLine ls
      → any (reads t) (lines (end_line (join 10 ls))) ≡ any (reads t) ls
  search-join = any-join (reads t) (reads-chop_cr t) (reads-blank t h.filled)

  pub search-end_line : (s : Text) → any (reads t) (lines (end_line s)) ≡ any (reads t) (lines s)
  search-end_line = any-end_line (reads t) (reads-chop_cr t) (reads-blank t h.filled)

  pub search-behind :
      (x y : Text)
      → any (reads t) (lines (x ++ 10 ∷ y)) ≡ (any (reads t) (lines x) || any (reads t) (lines y))
  search-behind = any-behind (reads t) (reads-chop_cr t) (reads-blank t h.filled)

pub reads-itself : (t : Text) → IsLine t → reads t t ≡ true
reads-itself t h = rw h.trimmed (text_eq_refl t)

if-either {ℓ κ} :
    {A : Type ℓ} (P : A → Type κ) (b : Bool) {x y : A} → P x → P y → P (if b then x else y)
if-either P true p q = p
if-either P false p q = q

pub any-append-one :
    (p : Text → Bool) (xs : List Text) (x : Text)
    → (any p xs || p x) ≡ true
    → any p (xs ++ x ∷ []) ≡ true
unfolding any
any-append-one p xs x h = ground (arith, any-append p xs (x ∷ []), h)

pub any-kept :
    (p : Text → Bool) (xs : List Text) (x : Text) → any p xs ≡ true → any p (xs ++ x ∷ []) ≡ true
any-kept p xs x h = any-append-one p xs x (ground (arith, h))

any-last : (p : Text → Bool) (xs : List Text) (x : Text) → p x ≡ true → any p (xs ++ x ∷ []) ≡ true
any-last p xs x h = any-append-one p xs x (ground (arith, h))

-- A line of which a test holds does not read a text of which it does not.
pub reads-differs :
    (q : Text → Bool) (line t : Text) → q (trim line) ≡ true → q t ≡ false → reads t line ≡ false
reads-differs q line t mine foreign = elim (Bool-cases (reads t line)) [
  | inr e ↦ e
  | inl e ↦ ground (arith, subst (λ x. q x ≡ true) ((text_eq_iff (trim line) t).0 e) mine, foreign)
]

module _ (ours : Text → Bool) (include : Text) where
  -- What a round does with a line: it keeps it, drops it, or puts the Include line in its place.
  data Round (r : Rewriting) (line : Text) : Rewriting → Type 0 where
    keeps : (waiting : Bool) → Round r line (keep_line line (record r { waiting = waiting }))
    drops : ours (trim line) ≡ true → Round r line (record r { waiting = false; dropped = true })
    replaces :
        (is_ssh_include_directive (trim line) || ours (trim line)) ≡ true
        → Round r line (keep_line include (record r { waiting = false; replaced = true }))

  drop_or_keep-Round :
      (r : Rewriting) (line : Text) → Round r line (drop_or_keep ours include r line)
  unfolding drop_or_keep
  drop_or_keep-Round r line = elim (Bool-cases (ours (trim line))) [
    | inl e ↦ rw e (drops e)
    | inr e ↦ rw e (keeps false)
  ]

  after_marker-Round :
      (r : Rewriting) (line : Text) → Round r line (after_marker ours include r line)
  unfolding after_marker
  after_marker-Round r line = elim (Bool-cases (is_empty (trim line))) [
    | inl blank ↦ rw blank (keeps r.waiting)
    | inr filled ↦ elim (Bool-cases (is_ssh_include_directive (trim line) || ours (trim line))) [
      | inl e ↦ rw (filled, e) (replaces e)
      | inr e ↦ rw (filled, e) (drop_or_keep-Round r line)
    ]
  ]

  rewrite_line-Round :
      (r : Rewriting) (line : Text) → Round r line (rewrite_line ours include r line)
  unfolding rewrite_line
  rewrite_line-Round r line = elim (Bool-cases (text_eq (trim line) marker)) [
    | inl e ↦ rw e (keeps true)
    | inr e ↦
        rw e (
          if-either (Round r line) r.waiting (after_marker-Round r line)
            (drop_or_keep-Round r line))
  ]

  -- The lines that were collected are lines, and the Include line is one of them if one was replaced.
  abbrev pub Collected : Rewriting → Type 0
  Collected r =
      All OneLine r.rewritten × ((r.replaced ≡ true) → any (reads include) r.rewritten ≡ true)

  Round-Collected :
      (r r' : Rewriting) (line : Text)
      → IsLine include
      → OneLine line
      → Round r line r'
      → Collected r
      → Collected r'
  Round-Collected r _ line i l (keeps w) h = (
    All-append OneLine r.rewritten (line ∷ []) h.0 (l, tt),
    λ e. any-kept (reads include) r.rewritten line (h.1 e),
  )
  Round-Collected r _ line i l (drops _) h = h
  Round-Collected r _ line i l (replaces _) h = (
    All-append OneLine r.rewritten (include ∷ []) h.0 (i.one_line, tt),
    λ e. any-last (reads include) r.rewritten include (reads-itself include i),
  )

  pub fold-Collected :
      (ls : List Text) (r : Rewriting)
      → IsLine include
      → All OneLine ls
      → Collected r
      → Collected (fold (rewrite_line ours include) r ls)
  unfolding fold
  fold-Collected [] r i l h = h
  fold-Collected (line ∷ ls) r i l h =
      fold-Collected ls _ i l.1 (Round-Collected r _ line i l.0 (rewrite_line-Round r line) h)

  -- A line that is not one of the program's, nor an Include line, is kept.
  Round-reads :
      (r r' : Rewriting) (line t : Text)
      → (is_ssh_include_directive t || ours t) ≡ false
      → Round r line r'
      → (any (reads t) r.rewritten || reads t line) ≡ true
      → any (reads t) r'.rewritten ≡ true
  Round-reads r _ line t foreign (keeps w) h = any-append-one (reads t) r.rewritten line h
  Round-reads r _ line t foreign (drops mine) h = ground (
    arith,
    h,
    reads-differs (λ x. is_ssh_include_directive x || ours x) line t (ground (arith, mine)) foreign,
  )
  Round-reads r _ line t foreign (replaces mine) h = any-kept (reads t) r.rewritten include (
      ground
        (arith, h, reads-differs (λ x. is_ssh_include_directive x || ours x) line t mine foreign))

  Round-keeps :
      (r r' : Rewriting) (line t : Text)
      → Round r line r'
      → any (reads t) r.rewritten ≡ true
      → any (reads t) r'.rewritten ≡ true
  Round-keeps r _ line t (keeps w) h = any-kept (reads t) r.rewritten line h
  Round-keeps r _ line t (drops mine) h = h
  Round-keeps r _ line t (replaces mine) h = any-kept (reads t) r.rewritten include h

  pub fold-reads :
      (ls : List Text) (r : Rewriting) (t : Text)
      → (is_ssh_include_directive t || ours t) ≡ false
      → (any (reads t) r.rewritten || any (reads t) ls) ≡ true
      → any (reads t) (fold (rewrite_line ours include) r ls).rewritten ≡ true
  unfolding fold any
  fold-reads [] r t foreign h = ground (arith, h)
  fold-reads (line ∷ ls) r t foreign h =
      fold-reads ls (rewrite_line ours include r line) t foreign
        (elim (Bool-cases (any (reads t) r.rewritten || reads t line)) [
          | inl e ↦ ground (arith, Round-reads r _ line t foreign (rewrite_line-Round r line) e)
          | inr e ↦ ground (arith, h, e)
        ])
