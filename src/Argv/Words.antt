-- ===== src/Argv/Words.antt =====
-- argv_create against a one-pass splitting into words.
use mathlib.Core.List.{append_assoc, append-nil}
use powerman.Base.{
  ℕ, zero, suc, ◌+◌, ◌≤◌, ◌<◌, ◌≡◌, refl, sym, ap, ◌∙◌, inl, inr, true, false, List, [], ◌∷◌, ◌++◌,
  some, arith, if◌then◌else◌, length, is_empty, length-append, Bool-cases,
}
use powerman.CStr.{CStr}
use powerman.Argv.{is_sep, skip_seps, skip_word, word, sizeargv_loop, argv_fill, argv_create}

-- The word that has been read so far, if there is one.
abbrev pub flush : CStr → List CStr
flush [] = []
flush (c ∷ w) = (c ∷ w) ∷ []

-- One pass with the word read so far: a separator ends the word.
unfoldable pub words_from : CStr → CStr → CStr → List CStr
words_from ignore w [] = flush w
words_from ignore w (c ∷ s) =
    if is_sep ignore c then flush w ++ words_from ignore [] s else words_from ignore (w ++ c ∷ []) s

unfoldable pub words : CStr → CStr → List CStr
unfolding words_from
words ignore s = words_from ignore [] s

flush-cons : (w : CStr) (ws : List CStr) → is_empty w ≡ false → flush w ++ ws ≡ w ∷ ws
flush-cons [] ws h = cc
flush-cons (c ∷ w) ws h = refl

nil_of_length : (ws : List CStr) → length ws ≡ 0 → ws ≡ []
nil_of_length [] h = refl
nil_of_length (w ∷ ws) h = absurd (omega arith)

module _ (ignore : CStr) where
  words_from-word :
      (w s : CStr)
      → words_from ignore w s
        ≡ flush (w ++ word ignore s) ++ words_from ignore [] (skip_word ignore s)
  unfolding words_from word skip_word
  words_from-word w [] = simp append-nil
  words_from-word w (c ∷ s) = elim (Bool-cases (is_sep ignore c)) [
    | inl e ↦ rw (e) (rw (append-nil w, e) refl)
    | inr e ↦ rw (e) (rw (words_from-word (w ++ c ∷ []) s) (simp append_assoc))
  ]

  words-skip_seps : (s : CStr) → words_from ignore [] (skip_seps ignore s) ≡ words_from ignore [] s
  unfolding words_from skip_seps
  words-skip_seps [] = refl
  words-skip_seps (c ∷ s) = elim (Bool-cases (is_sep ignore c)) [
    | inl e ↦ rw (e) (words-skip_seps s)
    | inr e ↦ rw (e) (rw e refl)
  ]

  -- What _nextargv takes off the front, and what it leaves.
  words-next :
      (s : CStr)
      → words_from ignore [] s
        ≡ flush (word ignore (skip_seps ignore s))
          ++ words_from ignore [] (skip_word ignore (skip_seps ignore s))
  words-next s = sym (words-skip_seps s) ∙ words_from-word [] (skip_seps ignore s)

  -- After skip_seps a word starts, or the string is over.
  word-skip_seps :
      (s : CStr) → is_empty (word ignore (skip_seps ignore s)) ≡ is_empty (skip_seps ignore s)
  unfolding word skip_seps
  word-skip_seps [] = refl
  word-skip_seps (c ∷ s) = elim (Bool-cases (is_sep ignore c)) [
    | inl e ↦ rw (e) (word-skip_seps s)
    | inr e ↦ rw (e) (rw e refl)
  ]

  length-skip_word : (s : CStr) → length (skip_word ignore s) ≤ length s
  unfolding skip_word
  length-skip_word [] = omega arith
  length-skip_word (c ∷ s) = ground (arith, length-skip_word s)

  length-rest :
      (s : CStr)
      → is_empty (skip_word ignore (skip_seps ignore s)) ≡ false
      → length (skip_word ignore (skip_seps ignore s)) < length s
  unfolding skip_word skip_seps
  length-rest [] h = cc
  length-rest (c ∷ s) h = ground (arith, length-rest s, length-skip_word s)

  length-flush : (w : CStr) → length (flush w) ≡ (if is_empty w then 0 else 1)
  length-flush [] = refl
  length-flush (c ∷ w) = refl

  length-words :
      (s : CStr)
      → length (words_from ignore [] s)
        ≡ (if is_empty (skip_seps ignore s) then 0 else 1)
          + length (words_from ignore [] (skip_word ignore (skip_seps ignore s)))
  length-words s =
      ap length (words-next s)
      ∙ length-append (flush (word ignore (skip_seps ignore s))) _
      ∙ rw (length-flush (word ignore (skip_seps ignore s)), word-skip_seps s) refl

  words_from-done : (s : CStr) → is_empty s ≡ true → words_from ignore [] s ≡ []
  unfolding words_from
  words_from-done [] h = refl
  words_from-done (c ∷ s) h = cc

  sizeargv_loop-words :
      (fuel : ℕ) (s : CStr) (n : ℕ)
      → length s < fuel
      → sizeargv_loop fuel ignore s n ≡ some (n + length (words_from ignore [] s))
  unfolding sizeargv_loop
  sizeargv_loop-words zero s n h = elim h [ ]
  sizeargv_loop-words (suc fuel) s n h =
      let after = skip_word ignore (skip_seps ignore s) in
      ground (
        arith,
        length-words s,
        length-rest s,
        words_from-done after,
        sizeargv_loop-words fuel after (if is_empty (skip_seps ignore s) then n else n + 1),
      )

  words_none : (s : CStr) → is_empty (skip_seps ignore s) ≡ true → words_from ignore [] s ≡ []
  words_none s h = sym (words-skip_seps s) ∙ words_from-done (skip_seps ignore s) h

  words_some :
      (s : CStr)
      → is_empty (word ignore (skip_seps ignore s)) ≡ false
      → words_from ignore [] s
        ≡ word ignore (skip_seps ignore s)
          ∷ words_from ignore [] (skip_word ignore (skip_seps ignore s))
  words_some s h = words-next s ∙ flush-cons (word ignore (skip_seps ignore s)) _ h

  argv_fill-words :
      (argc : ℕ) (s : CStr)
      → length (words_from ignore [] s) ≡ argc
      → argv_fill argc ignore s ≡ some (words_from ignore [] s)
  unfolding argv_fill
  argv_fill-words zero s h = ap some (sym (nil_of_length (words_from ignore [] s) h))
  argv_fill-words (suc argc) s h = elim (Bool-cases (is_empty (word ignore (skip_seps ignore s)))) [
    | inl e ↦ absurd (omega (arith, ap length (words_none s (sym (word-skip_seps s) ∙ e)), h))
    | inr e ↦
        let after = skip_word ignore (skip_seps ignore s) in
        let ih = argv_fill-words argc after (omega (arith, h, ap length (words_some s e))) in
        ground (arith, e, ih, words_some s e)
  ]

-- The assertion of argv_create, that _nextargv finds as many words as _sizeargv counts, always
-- holds, and the array is that of the words that one pass over the command line finds.
pub argv_create-words :
    (cmdline ignore : CStr) → argv_create cmdline ignore ≡ some (words ignore cmdline)
unfolding argv_create words
argv_create-words cmdline ignore =
    rw (sizeargv_loop-words ignore (suc (length cmdline)) cmdline 0 (omega arith), argv_create)
      (argv_fill-words ignore _ cmdline (omega arith))

-- The bytes of a command line that are no separators.
abbrev letters : CStr → CStr → CStr
letters ignore [] = []
letters ignore (c ∷ s) = let rest = letters ignore s in if is_sep ignore c then rest else c ∷ rest

abbrev concat : List CStr → CStr
concat [] = []
concat (w ∷ ws) = w ++ concat ws

concat-flush : (w : CStr) (ws : List CStr) → concat (flush w ++ ws) ≡ w ++ concat ws
concat-flush [] ws = refl
concat-flush (c ∷ w) ws = refl

concat-words_from : (ignore w s : CStr) → concat (words_from ignore w s) ≡ w ++ letters ignore s
unfolding words_from
concat-words_from ignore [] [] = refl
concat-words_from ignore (c ∷ w) [] = refl
concat-words_from ignore w (c ∷ s) = elim (Bool-cases (is_sep ignore c)) [
  | inl e ↦ rw e (concat-flush w _ ∙ ap (◌++◌ w) (concat-words_from ignore [] s))
  | inr e ↦ rw e (concat-words_from ignore (w ++ c ∷ []) s ∙ append_assoc w (c ∷ []) _)
]

-- No byte is lost: the words of the array, put together, are the bytes of the command line that
-- are no separators, in their order.
argv_create-letters :
    (cmdline ignore : CStr) {argv : List CStr}
    → argv_create cmdline ignore ≡ some argv
    → concat argv ≡ letters ignore cmdline
unfolding words
argv_create-letters cmdline ignore {argv} h =
    let same : some argv ≡ some (words ignore cmdline) = sym h ∙ argv_create-words cmdline ignore in
    let e : argv ≡ words ignore cmdline = cc same in rw e (concat-words_from ignore [] cmdline)
