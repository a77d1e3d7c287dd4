-- ===== src/Libpowerman/Lines.antt =====
-- The lines that _parse_response finds in what the daemon wrote.
use mathlib.Core.List.{reverse, reverse_aux, append_assoc}
use powerman.Base.{ℕ, ◌≡◌, refl, ap, ◌∙◌, sym, ◌==◌, false, List, [], ◌∷◌, ◌++◌, map, arith, All}
use powerman.CStr.{CStr, codes}
use powerman.Client.Wire.{cp_eol, cp_prompt, join_lines}
use powerman.Libpowerman.{parse_loop, parse_response}

-- A line that holds no carriage return.
abbrev pub IsLine : CStr → Type 0
IsLine l = All (λ c. (c == 13) ≡ false) l

abbrev pub with_eol : CStr → CStr
with_eol l = l ++ cp_eol

parse_loop-byte :
    (resp : List CStr) (cur : List ℕ) (c d e : ℕ) (r : List ℕ)
    → (c == 13) ≡ false
    → parse_loop resp cur (c ∷ d ∷ e ∷ r) ≡ parse_loop resp (cur ++ c ∷ []) (d ∷ e ∷ r)
unfolding parse_loop
parse_loop-byte resp cur c d e r h = ground arith

parse_loop-line :
    (resp : List CStr) (cur : List ℕ) (l : CStr) (e : ℕ) (r : List ℕ)
    → IsLine l
    → parse_loop resp cur (l ++ (cp_eol ++ e ∷ r))
      ≡ parse_loop ((cur ++ with_eol l) ∷ resp) [] (e ∷ r)
parse_loop-line resp cur [] e r h = unfold parse_loop in refl
parse_loop-line resp cur (c ∷ []) e r h =
    parse_loop-byte resp cur c 13 10 (e ∷ r) h.0
    ∙ parse_loop-line resp (cur ++ c ∷ []) [] e r h.1
    ∙ ap (λ k. parse_loop (k ∷ resp) [] (e ∷ r)) (append_assoc cur (c ∷ []) cp_eol)
parse_loop-line resp cur (c ∷ d ∷ []) e r h =
    parse_loop-byte resp cur c d 13 (10 ∷ e ∷ r) h.0
    ∙ parse_loop-line resp (cur ++ c ∷ []) (d ∷ []) e r h.1
    ∙ ap (λ k. parse_loop (k ∷ resp) [] (e ∷ r)) (append_assoc cur (c ∷ []) (with_eol (d ∷ [])))
parse_loop-line resp cur (c ∷ d ∷ x ∷ l) e r h =
    parse_loop-byte resp cur c d x (l ++ (cp_eol ++ e ∷ r)) h.0
    ∙ parse_loop-line resp (cur ++ c ∷ []) (d ∷ x ∷ l) e r h.1
    ∙ ap (λ k. parse_loop (k ∷ resp) [] (e ∷ r)) (append_assoc cur (c ∷ []) (with_eol (d ∷ x ∷ l)))

-- What follows a line: another one, or the prompt.
abbrev then_prompt : List CStr → List ℕ
then_prompt ls = join_lines ls ++ cp_prompt

then_prompt-cons : (ls : List CStr) → (e : ℕ) × (r : List ℕ) × (then_prompt ls ≡ e ∷ r)
unfolding join_lines
then_prompt-cons [] = (b'p', codes "owerman> ", refl)
then_prompt-cons ([] ∷ ls) = (13, (10 ∷ join_lines ls) ++ cp_prompt, refl)
then_prompt-cons ((c ∷ l) ∷ ls) = (c, (l ++ (cp_eol ++ join_lines ls)) ++ cp_prompt, refl)

then_prompt-line :
    (l : CStr) (ls : List CStr) → then_prompt (l ∷ ls) ≡ l ++ (cp_eol ++ then_prompt ls)
unfolding join_lines
then_prompt-line l ls = append_assoc l (cp_eol ++ join_lines ls) cp_prompt

parse_loop-lines :
    (ls resp : List CStr)
    → All IsLine ls
    → parse_loop resp [] (then_prompt ls) ≡ reverse_aux (map with_eol ls) resp
parse_loop-lines [] resp h = unfold join_lines parse_loop in refl
parse_loop-lines (l ∷ ls) resp h =
    let (e, r, first) = then_prompt-cons ls in
    ap (λ b. parse_loop resp [] b) (then_prompt-line l ls)
    ∙ ap (λ b. parse_loop resp [] (l ++ (cp_eol ++ b))) first
    ∙ parse_loop-line resp [] l e r h.0
    ∙ ap (λ b. parse_loop (with_eol l ∷ resp) [] b) (sym first)
    ∙ parse_loop-lines ls (with_eol l ∷ resp) h.1

-- _parse_response of lines that hold no carriage return, each with its end of line, and a prompt,
-- gives the lines, the last one first.
pub parse_response-lines :
    (ls : List CStr)
    → All IsLine ls
    → parse_response (join_lines ls ++ cp_prompt) ≡ reverse (map with_eol ls)
parse_response-lines ls h = unfold parse_response in parse_loop-lines ls [] h
