-- ===== src/SshConfig/Reimport.antt =====
-- The import of the bindings from the file that was generated from them.
pub mod Directives
use mathlib.Core.Path.{Path}
use sshwarden.Base.{
  ℕ, ◌≡◌, refl, ap, ◌∙◌, inl, inr, Bool, true, false, not, List, [], ◌∷◌, ◌++◌, Option, none, some,
  arith, Bool-cases, Option-cases, All, All-append, Text, codes, text_eq, text_eq_refl, trim,
  trim_with, trim_start_with, trim_end_with, keep_end, is_whitespace, words_from, split_whitespace,
  join, strip_prefix, retain, lookup, eq_ignore_ascii_case, Result, ok,
}
use sshwarden.Bindings.{HostBindingsFile, KeyBinding, PatternError, validate_all}
use sshwarden.SshConfig.{escape, quote_ssh_config_arg}
use sshwarden.SshConfig.Snippet.{
  ManagedKey, key_marker_prefix, sshwarden_key_marker_cipher_id, legacy_key_comment_cipher_id,
  Importing, is_known, announced, texts_eq, is_current, import_hosts, import_directive,
  import_trimmed, import_line, hosts_of, key_comment,
}
use sshwarden.SshConfig.Lines.{
  IsWord, trim_end_with-append, trim-line, trim-word, words_from-join, join-filled,
  trim_end_with-join, trim-IsWord, strip_prefix-append, rsplit_once-append, strip_last-append,
}

-- A comment: its first word begins with `#`, and so is not `Host`.
words_from-comment :
    (held s : Text) → (w : Text) × (ws : List Text) × (words_from (b'#' ∷ held) s ≡ (b'#' ∷ w) ∷ ws)
unfolding words_from
words_from-comment held [] = (held, [], refl)
words_from-comment held (c ∷ s) = elim (Bool-cases (is_whitespace c)) [
  | inl e ↦ (held, words_from [] s, rw e refl)
  | inr e ↦ rw e (words_from-comment (held ++ c ∷ []) s)
]

hash : is_whitespace b'#' ≡ false
unfolding is_whitespace
hash = refl

pub letter : is_whitespace b'H' ≡ false
unfolding is_whitespace
letter = refl

pub quote_closing : trim_end_with is_whitespace (b'"' ∷ []) ≡ b'"' ∷ []
unfolding trim_end_with keep_end is_whitespace
quote_closing = refl

closed : is_whitespace b')' ≡ false
unfolding is_whitespace
closed = refl

closing : trim_end_with is_whitespace (b')' ∷ []) ≡ b')' ∷ []
unfolding trim_end_with keep_end is_whitespace
closing = refl

keep_end-comment : (s : Text) → (x : Text) × (keep_end is_whitespace b'#' s ≡ b'#' ∷ x)
unfolding keep_end is_whitespace
keep_end-comment [] = ([], refl)
keep_end-comment (c ∷ s) = (c ∷ s, refl)

comment_words :
    (s : Text)
    → split_whitespace (b'#' ∷ s)
      ≡ (b'#' ∷ (words_from-comment [] s).0) ∷ (words_from-comment [] s).1
unfolding split_whitespace words_from is_whitespace
comment_words s = (words_from-comment [] s).2

trim-comment : (s : Text) → (x : Text) × (trim (b'#' ∷ s) ≡ b'#' ∷ x)
unfolding trim trim_with trim_start_with trim_end_with is_whitespace
trim-comment s = keep_end-comment (trim_end_with is_whitespace s)

texts_eq_refl : (xs : List Text) → texts_eq xs xs ≡ true
unfolding texts_eq
texts_eq_refl [] = refl
texts_eq_refl (x ∷ xs) = rw (text_eq_refl x) (texts_eq_refl xs)

module _ (now : ℕ) (keys : List ManagedKey) (file : HostBindingsFile) where
  abbrev pub reading : Option Text → Importing
  reading pending = record { pending = pending; changed = false; bindings = file }

  -- Nothing was changed so far.
  abbrev pub Quiet : Result PatternError Importing → Type 0
  Quiet s = (pending : Option Text) × (s ≡ ok (reading pending))

  import_directive-comment :
      (r : Importing) (w : Text) (ws : List Text)
      → import_directive now keys r ((b'#' ∷ w) ∷ ws) ≡ ok r
  unfolding import_directive eq_ignore_ascii_case text_eq
  import_directive-comment r w ws = refl

  pub import_line-words :
      (r : Importing) (line : Text) (ws : List Text)
      → announced keys (trim line) ≡ none
      → split_whitespace (trim line) ≡ ws
      → import_line now keys r line ≡ import_directive now keys r ws
  unfolding import_line import_trimmed import_directive
  import_line-words r line ws e f = rw (import_trimmed, e, f) refl

  import_line-announced :
      (r : Importing) (line id : Text)
      → announced keys (trim line) ≡ some id
      → import_line now keys r line ≡ ok (record r { pending = some id })
  unfolding import_line import_trimmed
  import_line-announced r line id e = rw (import_trimmed, e) refl

  pub comment-Quiet :
      (p : Option Text) (s : Text) → Quiet (import_line now keys (reading p) (b'#' ∷ s))
  comment-Quiet p s =
      let t = trim-comment s in
      let ws = words_from-comment [] t.0 in
      elim (Option-cases (announced keys (trim (b'#' ∷ s)))) [
        | inr id ↦ (some id.0, import_line-announced (reading p) (b'#' ∷ s) id.0 id.1)
        | inl e ↦ (
          p,
          import_line-words (reading p) (b'#' ∷ s) _ e (ap split_whitespace t.1 ∙ comment_words t.0)
              ∙ import_directive-comment (reading p) ws.0 ws.1,
        )
      ]

  announced-marker :
      (t id : Text)
      → sshwarden_key_marker_cipher_id t ≡ some id
      → is_known keys id ≡ true
      → announced keys t ≡ some id
  unfolding announced strip_prefix
  announced-marker t id e k = rw (e, k) refl

  announced-legacy :
      (t id : Text)
      → sshwarden_key_marker_cipher_id t ≡ none
      → legacy_key_comment_cipher_id t ≡ some id
      → is_known keys id ≡ true
      → announced keys t ≡ some id
  unfolding announced strip_prefix
  announced-legacy t id n e k = rw (n, e, k) refl

  -- Only a comment announces an id.
  pub not_announced-host : (s : Text) → announced keys (b'H' ∷ s) ≡ none
  unfolding announced strip_prefix
  not_announced-host s = refl

  pub not_announced-identity : (s : Text) → announced keys (b'I' ∷ s) ≡ none
  unfolding announced strip_prefix
  not_announced-identity s = refl

  pub current_of :
      {h : Text} {hs : List Text} (o : Option KeyBinding)
      → Path (List Text) (elim o [ none ↦ [] | some binding ↦ binding.hosts ]) (h ∷ hs)
      → Path Bool (elim o [ none ↦ false | some binding ↦ texts_eq binding.hosts (h ∷ hs) ]) true
  current_of none e = ground (arith, e)
  current_of (some b) e = rw e (texts_eq_refl _)

  -- What a bound block needs of its key: the id is a word and known, and the comment is not a marker.
  pub record IsGood (key : ManagedKey) : Type 0 where
    pub id_word : IsWord key.cipher_id
    pub known : is_known keys key.cipher_id ≡ true
    pub unmarked : sshwarden_key_marker_cipher_id (key_comment key) ≡ none

  marker-id :
      (id : Text) → IsWord id → sshwarden_key_marker_cipher_id (key_marker_prefix ++ id) ≡ some id
  unfolding sshwarden_key_marker_cipher_id strip_prefix
  marker-id id w = rw (strip_prefix-append key_marker_prefix id, trim-IsWord id w, w.filled) refl

  pub marker-line :
      (p : Option Text) (key : ManagedKey)
      → IsGood key
      → import_line now keys (reading p) (key_marker_prefix ++ key.cipher_id)
        ≡ ok (reading (some key.cipher_id))
  marker-line p key g =
      import_line-announced (reading p) (key_marker_prefix ++ key.cipher_id) key.cipher_id (
        ap (announced keys) (trim-word b'#' (codes " sshwarden:key ") key.cipher_id hash g.id_word)
        ∙ announced-marker _ key.cipher_id (marker-id key.cipher_id g.id_word) g.known)

  comment_trimmed : (key : ManagedKey) → trim (key_comment key) ≡ key_comment key
  comment_trimmed key =
      trim-line b'#' (32 ∷ key.name) (32 ∷ b'(' ∷ (key.cipher_id ++ (b')' ∷ []))) hash
        (trim_end_with-append is_whitespace (32 ∷ b'(' ∷ key.cipher_id) (b')' ∷ []) closing refl)
        refl

  comment-id :
      (key : ManagedKey)
      → IsWord key.cipher_id
      → legacy_key_comment_cipher_id (key_comment key) ≡ some key.cipher_id
  unfolding legacy_key_comment_cipher_id strip_prefix
  comment-id key w =
      (rw
        (
          legacy_key_comment_cipher_id,
          rsplit_once-append key.name (key.cipher_id ++ b')' ∷ [])
              (All-append _ key.cipher_id (b')' ∷ []) w.one_word (closed, tt)),
        )
        (strip_last-append key.cipher_id b')'))

  pub comment-line :
      (p : Option Text) (key : ManagedKey)
      → IsGood key
      → import_line now keys (reading p) (key_comment key) ≡ ok (reading (some key.cipher_id))
  comment-line p key g = import_line-announced (reading p) (key_comment key) key.cipher_id (
      ap (announced keys) (comment_trimmed key)
      ∙ announced-legacy _ key.cipher_id g.unmarked (comment-id key g.id_word) g.known)
