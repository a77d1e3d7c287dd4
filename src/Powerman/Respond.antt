-- ===== src/Powerman/Respond.antt =====
-- What _process_response makes of the responses of the daemon.
use mathlib.Core.List.{append_assoc, append-nil}
use powerman.Base.{
  ℕ, suc, ◌+◌, ◌<◌, ◌≤◌, ◌≡◌, refl, ap, ◌∙◌, sym, Bool, true, false, List, [], ◌∷◌, ◌++◌, map, ◌-◌,
  inl, inr, Bool-cases, Option, none, some, arith, All, if◌then◌else◌, length, length-append, drop,
}
use powerman.CStr.{CStr, isspace}
use powerman.Client.{Response}
use powerman.Client.Wire.{Build, cp_eol, join_lines, response_lines, response_text, wire}
use mathlib.Core.Path.{subst}
use powerman.Libpowerman.Lines.{IsLine}
use powerman.Libpowerman.Codes.{IsClean, all_lines, response_text-lines}
use powerman.Powerman.Session.{
  Session, done, supress, is_alldone, is_failure, line_number, response_loop, process_response,
}
use powerman.Powerman.Lines.{
  IsLong, LineKind, put, rounds, rounds-length, response_loop-last, response_loop-lines,
}

-- The number of a response that ends the answer, as the result of a command: 0 for a success.
abbrev pub result : Response → Option ℕ
result Response.rsp_quit = some 0
result Response.rsp_com_complete = some 0
result Response.rsp_qry_complete = some 0
result (Response.rsp_telemetry on) = some 0
result (Response.rsp_exprange on) = some 0
result Response.err_unknown = some 201
result Response.err_toolong = some 203
result Response.err_internal = some 204
result (Response.err_hostlist s) = some 205
result Response.err_clibusy = some 208
result (Response.err_nosuchnodes s) = some 209
result Response.err_com_complete = some 210
result Response.err_qry_complete = some 211
result Response.err_unimpl = some 213
result _ = none

pub result-small : (r : Response) (n : ℕ) → result r ≡ some n → n < 256
result-small Response.prompt n h = cc
result-small _ n h = ground (arith, h)

-- The responses that are not shown.
abbrev pub is_quiet : Response → Bool
is_quiet Response.rsp_qry_complete = true
is_quiet (Response.rsp_telemetry on) = true
is_quiet (Response.rsp_exprange on) = true
is_quiet _ = false

-- The lines shown for a response: its lines without their numbers.
abbrev pub shown : Build → Response → List CStr
shown b r = if is_quiet r then [] else map (drop 4) (response_lines b r)

abbrev pub all_shown : Build → List Response → List CStr
all_shown b [] = []
all_shown b (r ∷ rs) = shown b r ++ all_shown b rs

line_status : CStr → ℕ
unfolding line_number is_failure
line_status l = if is_failure (line_number l) then line_number l else 0

-- What the lines of a response are, by its result.
Fits : Build → Response → Option ℕ → Type 0
unfolding response_lines is_alldone line_number supress line_status
Fits b r none = (is_quiet r ≡ false) × All (LineKind false false) (response_lines b r)
Fits b r (some n) =
    (l : CStr) × (response_lines b r ≡ l ∷ []) × LineKind true (is_quiet r) l × (line_status l ≡ n)

response-Fits : (b : Build) (r : Response) → Fits b r (result r)
unfolding Fits isspace
response-Fits b Response.rsp_quit = (_, refl, (refl, refl), refl)
response-Fits b Response.rsp_com_complete = (_, refl, (refl, refl), refl)
response-Fits b Response.rsp_qry_complete = (_, refl, (refl, refl), refl)
response-Fits b (Response.rsp_telemetry on) = (_, refl, (refl, refl), refl)
response-Fits b (Response.rsp_exprange on) = (_, refl, (refl, refl), refl)
response-Fits b Response.err_unknown = (_, refl, (refl, refl), refl)
response-Fits b Response.err_toolong = (_, refl, (refl, refl), refl)
response-Fits b Response.err_internal = (_, refl, (refl, refl), refl)
response-Fits b (Response.err_hostlist s) = (_, refl, (refl, refl), refl)
response-Fits b Response.err_clibusy = (_, refl, (refl, refl), refl)
response-Fits b (Response.err_nosuchnodes s) = (_, refl, (refl, refl), refl)
response-Fits b Response.err_com_complete = (_, refl, (refl, refl), refl)
response-Fits b Response.err_qry_complete = (_, refl, (refl, refl), refl)
response-Fits b Response.err_unimpl = (_, refl, (refl, refl), refl)
response-Fits b Response.prompt = (refl, tt)
response-Fits b _ = search

-- The responses before the last one of an answer, and the last one, with its result.
abbrev pub IsInfo : Build → Response → Type 0
IsInfo b r = (result r ≡ none) × IsClean b r × All IsLong (response_lines b r)

abbrev pub IsFinal : Build → ℕ → Response → Type 0
IsFinal b n r = (result r ≡ some n) × IsClean b r × All IsLong (response_lines b r)

module _ (b : Build) where
  -- The fuel for some responses, and the fuel that is left after them.
  abbrev all_rounds : List Response → ℕ → ℕ
  all_rounds [] fuel = fuel
  all_rounds (r ∷ rs) fuel = rounds (response_lines b r) (all_rounds rs fuel)

  all_rounds-length :
      (rs : List Response) (fuel : ℕ) → all_rounds rs fuel ≡ length (all_lines b rs) + fuel
  all_rounds-length [] fuel = omega arith
  all_rounds-length (r ∷ rs) fuel = omega (
    arith,
    rounds-length (response_lines b r) (all_rounds rs fuel),
    all_rounds-length rs fuel,
    length-append (response_lines b r) (all_lines b rs),
  )

  length-join_lines : (ls : List CStr) → length ls ≤ length (join_lines ls)
  unfolding join_lines
  length-join_lines [] = omega arith
  length-join_lines (l ∷ ls) =
      omega (arith, length-join_lines ls, length-append l (cp_eol ++ join_lines ls))

  all_lines-shorter :
      (rs : List Response) → All (IsInfo b) rs → length (all_lines b rs) ≤ length (wire b rs)
  unfolding wire
  all_lines-shorter [] h = omega arith
  all_lines-shorter (r ∷ rs) h =
      let text = response_text-lines b r h.0.1.0 in
      omega (
        arith,
        length-join_lines (response_lines b r),
        ap (λ (t : CStr). length t) text,
        length-append (response_text b r) (wire b rs),
        length-append (response_lines b r) (all_lines b rs),
        all_lines-shorter rs h.1,
      )

  Fits-info : (r : Response) → result r ≡ none → Fits b r none
  Fits-info r h = subst (Fits b r) h (response-Fits b r)

  Fits-final : (r : Response) (n : ℕ) → result r ≡ some n → Fits b r (some n)
  Fits-final r n h = subst (Fits b r) h (response-Fits b r)

  shown-info : (r : Response) → is_quiet r ≡ false → shown b r ≡ map (drop 4) (response_lines b r)
  shown-info r h = rw (h) refl

  response_loop-infos :
      (rs : List Response) (fuel : ℕ) (x : List ℕ) (s : Session)
      → All (IsInfo b) rs
      → response_loop (all_rounds rs fuel) (record s { from = wire b rs ++ x })
        ≡ response_loop fuel (record s { from = x; out = s.out ++ all_shown b rs })
  unfolding wire Fits
  response_loop-infos [] fuel x s h =
      ap (λ t. response_loop fuel (record s { from = x; out = t })) (sym (append-nil s.out))
  response_loop-infos (r ∷ rs) fuel x s h =
      let ls = response_lines b r in
      let fits = Fits-info r h.0.0 in
      let fuel' = all_rounds rs fuel in
      let out' = s.out ++ map (drop 4) ls in
      ap (λ t. response_loop (rounds ls fuel') (record s { from = t }))
        (append_assoc (response_text b r) (wire b rs) x
          ∙ ap (λ t. t ++ (wire b rs ++ x)) (response_text-lines b r h.0.1.0))
      ∙ response_loop-lines ls fuel' (wire b rs ++ x) s h.0.1.1 h.0.2 fits.1
      ∙ response_loop-infos rs fuel x (record s { out = out' }) h.1
      ∙ ap (λ t. response_loop fuel (record s { from = x; out = t }))
          (append_assoc s.out (map (drop 4) ls) (all_shown b rs)
            ∙ ap (λ t. s.out ++ (t ++ all_shown b rs)) (sym (shown-info r fits.0)))

  put-shown :
      (r : Response) (l : CStr) (out' : List CStr)
      → response_lines b r ≡ l ∷ []
      → put (is_quiet r) out' l ≡ out' ++ shown b r
  put-shown r l out' h = elim (Bool-cases (is_quiet r)) [
    | inl e ↦ rw (e) (sym (append-nil out'))
    | inr e ↦ rw (e) (rw (h) refl)
  ]

  response_loop-final :
      (r : Response) (n fuel : ℕ) (x : List ℕ) (s : Session)
      → IsFinal b n r
      → response_loop (suc fuel) (record s { from = response_text b r ++ x })
        ≡ done n (record s { from = x; out = s.out ++ shown b r })
  unfolding Fits join_lines line_status
  response_loop-final r n fuel x s h =
      let (l, line, kind, status) = Fits-final r n h.0 in
      let clean = subst (All IsLine) line h.1.1 in
      let long = subst (All IsLong) line h.2 in
      ap (λ t. response_loop (suc fuel) (record s { from = t }))
        (ap (λ t. t ++ x) (response_text-lines b r h.1.0 ∙ ap join_lines line)
          ∙ append_assoc l (cp_eol ++ []) x)
      ∙ response_loop-last fuel l x s (is_quiet r) clean.0 long.0 kind
      ∙ ap (λ m. done m (record s { from = x; out = put (is_quiet r) s.out l })) status
      ∙ ap (λ t. done n (record s { from = x; out = t })) (put-shown r l s.out line)

  -- _process_response reads through the first response that ends the answer, shows the lines of all
  -- but a quiet one, and returns its number, or 0 for a success.
  pub process_response-answer :
      (rs : List Response) (r : Response) (n : ℕ) (x : List ℕ) (s : Session)
      → All (IsInfo b) rs
      → IsFinal b n r
      → process_response (record s { from = wire b rs ++ (response_text b r ++ x) })
        ≡ done n (record s { from = x; out = s.out ++ (all_shown b rs ++ shown b r) })
  unfolding process_response
  process_response-answer rs r n x s h f =
      let from' = wire b rs ++ (response_text b r ++ x) in
      let k = length from' - length (all_lines b rs) in
      let fuel : suc (length from') ≡ all_rounds rs (suc k) = omega (
        arith,
        all_rounds-length rs (suc k),
        all_lines-shorter rs h,
        length-append (wire b rs) (response_text b r ++ x),
      ) in
      ap (λ m. response_loop m (record s { from = from' })) fuel
      ∙ response_loop-infos rs (suc k) (response_text b r ++ x) s h
      ∙ response_loop-final r n k x (record s { out = s.out ++ all_shown b rs }) f
      ∙ ap (λ t. done n (record s { from = x; out = t }))
          (append_assoc s.out (all_shown b rs) (shown b r))
