-- ===== src/Powerman/Lines.antt =====
-- What _process_response makes of a line, and of the lines of an answer.
use mathlib.Core.List.{append_assoc, append-nil}
use powerman.Base.{
  ℕ, suc, ◌+◌, ◌≡◌, refl, ap, ◌∙◌, sym, Bool, true, false, List, [], ◌∷◌, ◌++◌, map, arith, All,
  if◌then◌else◌, length, drop, ltb,
}
use powerman.CStr.{CStr}
use powerman.Client.Wire.{cp_eol, join_lines}
use powerman.Libpowerman.Lines.{IsLine}
use powerman.Powerman.Session.{
  Session, Run, done, supress, is_alldone, is_failure, line_number, process_line, response_loop,
  and_then,
}
use powerman.Powerman.Read.{xreadstr-line}

-- A line that has something behind its number.
abbrev pub IsLong : CStr → Type 0
IsLong l = ltb 4 (length l) ≡ true

-- A line of an answer, by whether it ends the answer and is shown.
abbrev pub LineKind : Bool → Bool → CStr → Type 0
LineKind ends quiet l = (is_alldone (line_number l) ≡ ends) × (supress (line_number l) ≡ quiet)

abbrev pub put : Bool → List CStr → CStr → List CStr
put quiet out l = if quiet then out else out ++ drop 4 l ∷ []

process_line-line :
    (l : CStr) (r : List ℕ) (s : Session) (quiet : Bool)
    → IsLine l
    → IsLong l
    → supress (line_number l) ≡ quiet
    → process_line (record s { from = l ++ (cp_eol ++ r) })
      ≡ done (line_number l) (record s { from = r; out = put quiet s.out l })
unfolding process_line
process_line-line l r s true line long e =
    rw (xreadstr-line l r line, process_line) (rw (long) (rw (e) refl))
process_line-line l r s false line long e =
    rw (xreadstr-line l r line, process_line) (rw (long) (rw (e) refl))

-- A round of _process_response, by what _process_line returns.
after_line : ℕ → ℕ → Session → Run ℕ
unfolding is_alldone is_failure response_loop
after_line fuel num s = elim (is_alldone num) [
  | true ↦ done (if is_failure num then num else 0) s
  | false ↦ response_loop fuel s
]

response_loop-line :
    (fuel num : ℕ) (s s' : Session)
    → process_line s ≡ done num s'
    → response_loop (suc fuel) s ≡ after_line fuel num s'
unfolding response_loop and_then after_line
response_loop-line fuel num s s' h = rw (h, response_loop) refl

after_line-last :
    (fuel num : ℕ) (s : Session)
    → is_alldone num ≡ true
    → after_line fuel num s ≡ done (if is_failure num then num else 0) s
unfolding after_line
after_line-last fuel num s h = rw (h, after_line) refl

after_line-more :
    (fuel num : ℕ) (s : Session)
    → is_alldone num ≡ false
    → after_line fuel num s ≡ response_loop fuel s
unfolding after_line
after_line-more fuel num s h = rw (h, after_line) refl

pub response_loop-last :
    (fuel : ℕ) (l : CStr) (r : List ℕ) (s : Session) (quiet : Bool)
    → IsLine l
    → IsLong l
    → LineKind true quiet l
    → response_loop (suc fuel) (record s { from = l ++ (cp_eol ++ r) })
      ≡ done
          (if is_failure (line_number l) then line_number l else 0)
          (record s { from = r; out = put quiet s.out l })
response_loop-last fuel l r s quiet line long k =
    response_loop-line fuel (line_number l) _ _ (process_line-line l r s quiet line long k.1)
    ∙ after_line-last fuel (line_number l) _ k.0

-- The fuel for some lines, and the fuel that is left after them.
abbrev pub rounds : List CStr → ℕ → ℕ
rounds [] fuel = fuel
rounds (l ∷ ls) fuel = suc (rounds ls fuel)

pub rounds-length : (ls : List CStr) (fuel : ℕ) → rounds ls fuel ≡ length ls + fuel
rounds-length [] fuel = omega arith
rounds-length (l ∷ ls) fuel = omega (arith, rounds-length ls fuel)

-- The lines before the last.
pub response_loop-lines :
    (ls : List CStr) (fuel : ℕ) (r : List ℕ) (s : Session)
    → All IsLine ls
    → All IsLong ls
    → All (LineKind false false) ls
    → response_loop (rounds ls fuel) (record s { from = join_lines ls ++ r })
      ≡ response_loop fuel (record s { from = r; out = s.out ++ map (drop 4) ls })
unfolding join_lines
response_loop-lines [] fuel r s line long k =
    ap (λ t. response_loop fuel (record s { from = r; out = t })) (sym (append-nil s.out))
response_loop-lines (l ∷ ls) fuel r s line long k =
    let more = join_lines ls ++ r in
    let fuel' = rounds ls fuel in
    ap (λ t. response_loop (suc fuel') (record s { from = t }))
      (append_assoc l (cp_eol ++ join_lines ls) r)
    ∙ response_loop-line fuel' (line_number l) _ _
        (process_line-line l more s false line.0 long.0 k.0.1)
    ∙ after_line-more fuel' (line_number l) _ k.0.0
    ∙ response_loop-lines ls fuel r (record s { out = s.out ++ drop 4 l ∷ [] }) line.1 long.1 k.1
    ∙ ap (λ t. response_loop fuel (record s { from = r; out = t }))
        (append_assoc s.out (drop 4 l ∷ []) (map (drop 4) ls))
