-- ===== src/Powerman/Execute.antt =====
-- The commands of a session with the daemon, and the whole session.
use mathlib.Core.List.{append_assoc, append-nil}
use mathlib.Core.Path.{subst}
use powerman.Base.{
  arith, ◌%◌, ◌<◌, if_both, ℕ, ◌≡◌, refl, ap, ◌∙◌, sym, inl, inr, Bool, true, false, ◌||◌, ◌==◌,
  List, [], ◌∷◌, ◌++◌, map, All, if◌then◌else◌, Bool-cases,
}
use powerman.CStr.{CStr, codes}
use powerman.Client.{Response}
use powerman.Client.Wire.{Build, cp_eol, cp_prompt, response_lines, response_text, join_lines, wire}
use powerman.Client.Input.{scan_arg}
use powerman.Libpowerman.Lines.{IsLine}
use powerman.Libpowerman.Nodes.{IsWord, IsWord-IsLine}
use powerman.Powerman.Session.{
  Session, Run, done, and_then, process_version, cmd_execute, execute_all, session,
}
use powerman.Powerman.Read.{xreadstr-line, expect-text}
use powerman.Powerman.Respond.{
  result-small, IsInfo, IsFinal, shown, all_shown, process_response-answer,
}
use powerman.Powerman.Words.{scan_arg-word}

-- A request and the daemon's answer: the last response, its result, and those before it.
pub record Turn : Type 0 where
  pub request : CStr
  pub infos : List Response
  pub last : Response
  pub code : ℕ

abbrev pub IsTurn : Build → Turn → Type 0
IsTurn b t = All (IsInfo b) t.infos × IsFinal b t.code t.last

-- Whether powerman goes on after a turn.
abbrev goes_on : Bool → Turn → Bool
goes_on ignore_errs t = ignore_errs || t.code == 0

-- The turns that take place: through the first that fails, unless errors are ignored.
abbrev pub taken : Bool → List Turn → List Turn
taken ignore_errs [] = []
taken ignore_errs (t ∷ ts) =
    let rest = taken ignore_errs ts in t ∷ (if goes_on ignore_errs t then rest else [])

-- The code of the last of them, if it failed.
abbrev pub status : Bool → List Turn → ℕ
status ignore_errs [] = 0
status ignore_errs (t ∷ ts) =
    let rest = status ignore_errs ts in if goes_on ignore_errs t then rest else t.code

-- What the daemon sends for turns, what powerman sends, and what it prints.
abbrev pub answers : Build → List Turn → CStr
answers b [] = []
answers b (t ∷ ts) = wire b t.infos ++ (response_text b t.last ++ (cp_prompt ++ answers b ts))

abbrev pub requests : List Turn → CStr
requests [] = []
requests (t ∷ ts) = (t.request ++ cp_eol) ++ requests ts

abbrev pub printed : Build → List Turn → List CStr
printed b [] = []
printed b (t ∷ ts) = (all_shown b t.infos ++ shown b t.last) ++ printed b ts

abbrev request_texts : List Turn → List CStr
request_texts ts = map (λ (t : Turn). t.request) ts

-- The session after turns, with what the daemon still sends.
abbrev pub after : Build → List Turn → List ℕ → Session → Session
after b ts x s = record s { from = x; to = s.to ++ requests ts; out = s.out ++ printed b ts }

module _ (b : Build) (sizes : ℕ → ℕ) where
  after_turn : Turn → List ℕ → Session → Session
  after_turn t x s = record s {
    from = x;
    to = s.to ++ (t.request ++ cp_eol);
    out = s.out ++ (all_shown b t.infos ++ shown b t.last);
  }

  cmd_execute-turn :
      (t : Turn) (x : List ℕ) (s : Session)
      → IsTurn b t
      → cmd_execute sizes t.request
          (record s { from = wire b t.infos ++ (response_text b t.last ++ (cp_prompt ++ x)) })
        ≡ done t.code (after_turn t x s)
  unfolding cmd_execute and_then after_turn
  cmd_execute-turn t x s h =
      let s' = record s { to = s.to ++ (t.request ++ cp_eol) } in
      let s'' = record s' { out = s.out ++ (all_shown b t.infos ++ shown b t.last) } in
      rw (process_response-answer b t.infos t.last t.code (cp_prompt ++ x) s' h.0 h.1, cmd_execute)
        (rw (expect-text sizes b'p' (codes "owerman> ") x s'') refl)

  answers-append :
      (t : Turn) (ts : List Turn) (x : List ℕ)
      → answers b (t ∷ ts) ++ x
        ≡ wire b t.infos ++ (response_text b t.last ++ (cp_prompt ++ (answers b ts ++ x)))
  answers-append t ts x =
      let more = response_text b t.last ++ (cp_prompt ++ answers b ts) in
      append_assoc (wire b t.infos) more x
      ∙ ap (λ y. wire b t.infos ++ y)
          (append_assoc (response_text b t.last) (cp_prompt ++ answers b ts) x)

  after-nil : (x : List ℕ) (s : Session) → after b [] x s ≡ record s { from = x }
  after-nil x s =
      ap (λ u. record s { from = x; to = u; out = s.out ++ [] }) (append-nil s.to)
      ∙ ap (λ u. record s { from = x; out = u }) (append-nil s.out)

  after-cons :
      (t : Turn) (ts : List Turn) (x y : List ℕ) (s : Session)
      → after b ts x (after_turn t y s) ≡ after b (t ∷ ts) x s
  unfolding after_turn
  after-cons t ts x y s =
      let out' = (s.out ++ (all_shown b t.infos ++ shown b t.last)) ++ printed b ts in
      ap (λ u. record s { from = x; to = u; out = out' })
        (append_assoc s.to (t.request ++ cp_eol) (requests ts))
      ∙ ap (λ u. record s { from = x; to = s.to ++ requests (t ∷ ts); out = u })
          (append_assoc s.out (all_shown b t.infos ++ shown b t.last) (printed b ts))

  -- What follows a turn.
  go_on : Bool → Bool → List CStr → ℕ → Session → Run ℕ
  unfolding execute_all
  go_on goes ignore_errs cl code s = elim goes [
    | true ↦ execute_all sizes ignore_errs 0 cl s
    | false ↦ done code s
  ]

  execute_all-turn :
      (ignore_errs : Bool) (t : Turn) (us : List Turn) (cl : List CStr) (x : List ℕ) (s : Session)
      → IsTurn b t
      → execute_all sizes ignore_errs 0
          (t.request ∷ cl)
          (record s { from = answers b (t ∷ us) ++ x })
        ≡ go_on (goes_on ignore_errs t) ignore_errs cl t.code (after_turn t (answers b us ++ x) s)
  unfolding execute_all and_then go_on
  execute_all-turn ignore_errs t us cl x s h =
      ap (λ y. execute_all sizes ignore_errs 0 (t.request ∷ cl) (record s { from = y }))
        (answers-append t us x)
      ∙ rw (cmd_execute-turn t (answers b us ++ x) s h, execute_all) refl

  execute_all-turns :
      (ignore_errs : Bool) (ts : List Turn) (x : List ℕ) (s : Session)
      → All (IsTurn b) ts
      → execute_all sizes ignore_errs 0
          (request_texts ts)
          (record s { from = answers b (taken ignore_errs ts) ++ x })
        ≡ done (status ignore_errs ts) (after b (taken ignore_errs ts) x s)
  unfolding execute_all go_on after_turn
  execute_all-turns ignore_errs [] x s h = ap (done 0) (sym (after-nil x s))
  execute_all-turns ignore_errs (t ∷ ts) x s h =
      let us = taken ignore_errs ts in
      let rest : Bool → List Turn = λ g. if g then us else [] in
      let end : Bool → Run ℕ = λ g.
        go_on g ignore_errs (request_texts ts) t.code (after_turn t (answers b (rest g) ++ x) s) in
      let aim : Bool → Run ℕ =
        λ g. done (if g then status ignore_errs ts else t.code) (after b (t ∷ rest g) x s) in
      let first =
        execute_all-turn ignore_errs t (rest (goes_on ignore_errs t)) (request_texts ts) x s h.0 in
      first ∙ (elim (Bool-cases (goes_on ignore_errs t)) [
        | inl e ↦
            subst (λ g. end g ≡ aim g) (sym e)
              (execute_all-turns ignore_errs ts x (after_turn t (answers b us ++ x) s) h.1
                ∙ ap (done (status ignore_errs ts)) (after-cons t us x (answers b us ++ x) s))
        | inr e ↦
            subst (λ g. end g ≡ aim g) (sym e)
              (ap (done t.code) (sym (after-nil x (after_turn t x s)) ∙ after-cons t [] x x s))
      ])

  process_version-line :
      (x : List ℕ) (s : Session)
      → IsWord b.version
      → process_version (record s { from = response_text b Response.version ++ x })
        ≡ done tt (record s { from = x })
  unfolding process_version response_text response_lines join_lines scan_arg
  process_version-line x s h =
      let line = codes "001 " ++ b.version in
      let is_line : IsLine line = (refl, (refl, (refl, (refl, IsWord-IsLine b.version h.1)))) in
      let text : response_text b Response.version ++ x ≡ line ++ (cp_eol ++ x) =
        append_assoc line cp_eol x in
      ap (λ y. process_version (record s { from = y })) text
      ∙ rw (xreadstr-line line x is_line, process_version)
          (rw (scan_arg-word b.version h, scan_arg) refl)

  status-small :
      (ignore_errs : Bool) (ts : List Turn) → All (IsTurn b) ts → status ignore_errs ts < 256
  status-small ignore_errs [] h = omega arith
  status-small ignore_errs (t ∷ ts) h =
      if_both (λ k. k < 256) (goes_on ignore_errs t) (status ignore_errs ts) t.code
        (status-small ignore_errs ts h.1) (result-small t.last t.code h.0.1.0)

  -- If the daemon greets powerman with a version and the prompt, gives to each request an answer that
  -- ends in a response with a result, and says goodbye, then powerman sends the requests in order
  -- through the first whose result is a failure, or all of them if errors are ignored, and "quit";
  -- prints the lines of the answers; leaves nothing unread; and exits with that failure, or else 0.
  pub session-turns :
      (ignore_errs : Bool) (ts : List Turn) (s : Session)
      → IsWord b.version
      → All (IsTurn b) ts
      → session sizes ignore_errs (request_texts ts) (record s {
        from =
            response_text b Response.version
            ++ (cp_prompt
                ++ (answers b (taken ignore_errs ts) ++ response_text b Response.rsp_quit));
      })
        ≡ done (status ignore_errs ts) (record s {
          from = [];
          to = (s.to ++ requests (taken ignore_errs ts)) ++ (codes "quit" ++ cp_eol);
          out = s.out ++ printed b (taken ignore_errs ts);
        })
  unfolding session and_then response_text response_lines join_lines
  session-turns ignore_errs ts s v h =
      let quit = response_text b Response.rsp_quit in
      let us = taken ignore_errs ts in
      let served = answers b us ++ quit in
      let ended = after b us quit s in
      let low : status ignore_errs ts % 256 ≡ status ignore_errs ts =
        omega (arith, status-small ignore_errs ts h) in
      rw (process_version-line (cp_prompt ++ served) s v, session)
        (rw (expect-text sizes b'p' (codes "owerman> ") served s) (
          rw (execute_all-turns ignore_errs ts quit s h) (
            rw
              (expect-text sizes b'1' (codes "01 Goodbye" ++ cp_eol) []
                (record ended { to = ended.to ++ (codes "quit" ++ cp_eol) }))
              (rw low refl))))
