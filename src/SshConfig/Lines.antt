-- ===== src/SshConfig/Lines.antt =====
-- The texts of the generated lines: what trimming and splitting make of them.
use sshwarden.Base.{
  ℕ, ◌≡◌, refl, sym, ap, ◌∙◌, Bool, true, false, List, [], ◌∷◌, ◌++◌, none, some, arith, ◌==◌,
  ==_iff, All, Text, trim, trim_with, trim_start_with, trim_end_with, keep_end, is_whitespace,
  OneWord, words_from, nonempty, join, append-one, append-nil, strip_prefix, strip_last,
  rsplit_once,
}
use sshwarden.Bindings.{is_empty}

-- A word, which is not empty.
pub record IsWord (w : Text) : Type 0 where
  pub one_word : OneWord w
  pub filled : is_empty w ≡ false

keep_end-filled : (p : ℕ → Bool) (c : ℕ) (s : Text) → is_empty s ≡ false → keep_end p c s ≡ c ∷ s
unfolding keep_end
keep_end-filled p c [] h = ground (arith, h)
keep_end-filled p c (d ∷ s) h = refl

append_filled : (x y : Text) → is_empty y ≡ false → is_empty (x ++ y) ≡ false
append_filled [] y h = h
append_filled (c ∷ x) y h = refl

pub trim_end_with-append :
    (p : ℕ → Bool) (x y : Text)
    → trim_end_with p y ≡ y
    → is_empty y ≡ false
    → trim_end_with p (x ++ y) ≡ x ++ y
unfolding trim_end_with
trim_end_with-append p [] y h f = h
trim_end_with-append p (c ∷ x) y h f =
    ap (keep_end p c) (trim_end_with-append p x y h f)
    ∙ keep_end-filled p c (x ++ y) (append_filled x y f)

pub trim_end_with-word : (w : Text) → OneWord w → trim_end_with is_whitespace w ≡ w
unfolding trim_end_with keep_end
trim_end_with-word [] h = refl
trim_end_with-word (c ∷ []) h = rw h.0 refl
trim_end_with-word (c ∷ d ∷ w) h = rw (trim_end_with-word (d ∷ w) h.1) refl

-- A line that begins with a character that is not white space and ends in a word is not trimmed.
pub trim-line :
    (c : ℕ) (x y : Text)
    → is_whitespace c ≡ false
    → trim_end_with is_whitespace y ≡ y
    → is_empty y ≡ false
    → trim (c ∷ x ++ y) ≡ c ∷ x ++ y
unfolding trim trim_with trim_start_with
trim-line c x y n h f = rw n (trim_end_with-append is_whitespace (c ∷ x) y h f)

pub trim-word :
    (c : ℕ) (x w : Text) → is_whitespace c ≡ false → IsWord w → trim (c ∷ x ++ w) ≡ c ∷ x ++ w
trim-word c x w n h = trim-line c x w n (trim_end_with-word w h.one_word) h.filled

words_from-word :
    (held w : Text) (c : ℕ) (s : Text)
    → OneWord w
    → is_whitespace c ≡ true
    → words_from held (w ++ c ∷ s) ≡ nonempty (held ++ w) ++ words_from [] s
unfolding words_from
words_from-word held [] c s h k = rw (k, append-nil) refl
words_from-word held (d ∷ w) c s h k = rw h.0 (
    words_from-word (held ++ d ∷ []) w c s h.1 k
    ∙ ap (λ x. nonempty x ++ words_from [] s) (append-one held d w))

words_from-end : (held w : Text) → OneWord w → words_from held w ≡ nonempty (held ++ w)
unfolding words_from
words_from-end held [] h = rw append-nil refl
words_from-end held (d ∷ w) h =
    rw h.0 (words_from-end (held ++ d ∷ []) w h.1 ∙ ap nonempty (append-one held d w))

nonempty-word : (w : Text) → is_empty w ≡ false → nonempty w ≡ w ∷ []
nonempty-word [] h = ground (arith, h)
nonempty-word (c ∷ w) h = refl

pub words_from-join : (ws : List Text) → All IsWord ws → words_from [] (join 32 ws) ≡ ws
unfolding join
words_from-join [] h = unfold words_from in refl
words_from-join (w ∷ []) h = words_from-end [] w h.0.one_word ∙ nonempty-word w h.0.filled
words_from-join (w ∷ v ∷ ws) h =
    words_from-word [] w 32 (join 32 (v ∷ ws)) h.0.one_word (unfold is_whitespace in refl)
    ∙ ap (λ x. x ++ words_from [] (join 32 (v ∷ ws))) (nonempty-word w h.0.filled)
    ∙ ap (◌∷◌ w) (words_from-join (v ∷ ws) h.1)

pub join-filled : (w : Text) (ws : List Text) → IsWord w → is_empty (join 32 (w ∷ ws)) ≡ false
unfolding join
join-filled w [] h = h.filled
join-filled [] (v ∷ ws) h = ground (arith, h.filled)
join-filled (c ∷ w) (v ∷ ws) h = refl

pub trim_end_with-join :
    (w : Text) (ws : List Text)
    → All IsWord (w ∷ ws)
    → trim_end_with is_whitespace (join 32 (w ∷ ws)) ≡ join 32 (w ∷ ws)
unfolding join
trim_end_with-join w [] h = trim_end_with-word w h.0.one_word
trim_end_with-join w (v ∷ ws) h =
    ap (trim_end_with is_whitespace) (sym (append-one w 32 (join 32 (v ∷ ws))))
    ∙ trim_end_with-append is_whitespace (w ++ 32 ∷ []) (join 32 (v ∷ ws))
        (trim_end_with-join v ws h.1) (join-filled v ws h.1.0)
    ∙ append-one w 32 (join 32 (v ∷ ws))

pub strip_prefix-append : (x y : Text) → strip_prefix x (x ++ y) ≡ some y
unfolding strip_prefix
strip_prefix-append [] y = refl
strip_prefix-append (c ∷ x) y = rw ((==_iff c c).1 refl) (strip_prefix-append x y)

blank : (c : ℕ) → is_whitespace c ≡ false → (c == 32) ≡ false
unfolding is_whitespace
blank c h = ground (arith, h)

-- A text without blanks, behind the last separator.
rsplit_once-word : (w : Text) → OneWord w → rsplit_once (32 ∷ 40 ∷ []) w ≡ none
unfolding rsplit_once strip_prefix
rsplit_once-word [] h = refl
rsplit_once-word (c ∷ w) h = rw (rsplit_once-word w h.1) (ground (arith, blank c h.0))

pub rsplit_once-append :
    (x w : Text) → OneWord w → rsplit_once (32 ∷ 40 ∷ []) (x ++ 32 ∷ 40 ∷ w) ≡ some (x, w)
unfolding rsplit_once strip_prefix
rsplit_once-append [] w h = rw (rsplit_once-word w h) refl
rsplit_once-append (c ∷ x) w h = rw (rsplit_once-append x w h) refl

pub strip_last-append : (x : Text) (c : ℕ) → strip_last c (x ++ c ∷ []) ≡ some x
unfolding strip_last
strip_last-append [] c = rw ((==_iff c c).1 refl) refl
strip_last-append (d ∷ []) c = rw (strip_last, (==_iff c c).1 refl) refl
strip_last-append (d ∷ e ∷ x) c = rw (strip_last-append (e ∷ x) c) refl

pub trim-IsWord : (w : Text) → IsWord w → trim w ≡ w
unfolding trim trim_with trim_start_with
trim-IsWord [] h = ground (arith, h.filled)
trim-IsWord (c ∷ w) h = rw (h.one_word.0) (trim_end_with-word (c ∷ w) h.one_word)
