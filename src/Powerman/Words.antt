-- ===== src/Powerman/Words.antt =====
-- How the daemon scans a request with an argument.
use mathlib.Core.List.{append_assoc}
use powerman.Base.{
  ℕ, ◌<◌, ◌≡◌, refl, ap, ◌∙◌, sym, false, [], ◌∷◌, ◌++◌, none, some, arith, All, if◌then◌else◌,
  length, is_empty,
}
use powerman.CStr.{CStr, isspace}
use powerman.Client.Input.{
  strip_left, strip_right, strip_whitespace, scan_word, scan_arg, first_line, tests, classify,
}
use powerman.Client.Wire.{cp_eol}
use powerman.Libpowerman.Nodes.{IsWord}

scan_word-word : (s : CStr) → All (λ c. isspace c ≡ false) s → scan_word s ≡ s
unfolding scan_word
scan_word-word [] h = refl
scan_word-word (c ∷ s) h = ground (arith, scan_word-word s h.1)

strip_left-space : (s : CStr) → IsWord s → strip_left (32 ∷ s) ≡ s
unfolding strip_left isspace
strip_left-space [] h = cc
strip_left-space (c ∷ s) h = ground (arith, h.1.0)

-- "%s" takes a word behind a space.
pub scan_arg-word : (s : CStr) → IsWord s → scan_arg (32 ∷ s) [] ≡ some s
unfolding scan_arg
scan_arg-word s h =
    let word = ap scan_word (strip_left-space s h) ∙ scan_word-word s h.1 in
    ap (λ w. if is_empty w then none else some w) word ∙ rw h.0 refl

strip_right-eol : (s : CStr) → All (λ c. isspace c ≡ false) s → strip_right (s ++ cp_eol) ≡ s
unfolding strip_right
strip_right-eol [] h = unfold isspace in refl
strip_right-eol (c ∷ s) h = ground (arith, strip_right-eol s h.1)

is_empty-append : (x s : CStr) → is_empty s ≡ false → is_empty (x ++ s) ≡ false
is_empty-append [] s h = h
is_empty-append (c ∷ x) s h = refl

-- A word protects what is in front of it.
strip_right-front : (x s : CStr) → IsWord s → strip_right (x ++ (s ++ cp_eol)) ≡ x ++ s
unfolding strip_right
strip_right-front [] s h = strip_right-eol s h.1
strip_right-front (c ∷ x) s h =
    rw (strip_right-front x s h, strip_right) (rw (is_empty-append x s h.0) refl)

-- A request with an argument, without the end of its line.
pub strip_whitespace-request :
    (c : ℕ) (kw t : CStr)
    → isspace c ≡ false
    → IsWord t
    → strip_whitespace (((c ∷ kw) ++ 32 ∷ t) ++ cp_eol) ≡ (c ∷ kw) ++ 32 ∷ t
unfolding strip_whitespace strip_left
strip_whitespace-request c kw t h w =
    let kw' = (c ∷ kw) ++ 32 ∷ [] in
    let front : (c ∷ kw) ++ 32 ∷ t ≡ kw' ++ t = sym (append_assoc (c ∷ kw) (32 ∷ []) t) in
    rw (h, strip_whitespace, strip_left)
      (ap (λ x. strip_right (x ++ cp_eol)) front
        ∙ ap strip_right (append_assoc kw' t cp_eol)
        ∙ strip_right-front kw' t w
        ∙ sym front)

pub classify-short : (str : CStr) → length str < 8192 → classify false str ≡ first_line str tests
unfolding classify
classify-short str h = ground (arith, h)
