-- ===== src/Libpowerman/Transfer.antt =====
-- Sending a command and receiving the whole of its response.
use mathlib.Core.List.{reverse, append_assoc, append-nil}
use powerman.Base.{
  ℕ, ◌+◌, ◌-◌, ◌≤◌, ◌≡◌, refl, ap, ◌∙◌, sym, true, false, List, [], ◌∷◌, ◌++◌, map, Option, none,
  some, arith, All, if◌then◌else◌, length, length-append, take, drop, drop-append, take-append-drop,
  length-drop,
}
use powerman.CStr.{CStr, str_eq, str_eq_self}
use powerman.Client.{Response}
use powerman.Client.Wire.{Build, cp_eol, cp_prompt, wire}
use powerman.Libpowerman.{
  PmErr, pm_esuccess, strncmpend, parse_response, server_retcode, format, snprintf,
}
use powerman.Libpowerman.Lines.{with_eol}
use powerman.Libpowerman.Codes.{
  IsClean, all_lines, first_verdict, parse_response-wire, server_retcode-lines, wire-lines,
}
use powerman.Libpowerman.Handle.{
  Reading, chunk, Connection, Outcome, lines, err, got, recv_loop, is_pm_success, received,
  server_recv_response, write_loop, server_send_command, after_send, server_command,
}

abbrev pub joined : List (List ℕ) → List ℕ
joined [] = []
joined (c ∷ cs) = c ++ joined cs

-- How a text may come in several reads: after each but the last there are as many bytes as the
-- prompt has, and they do not end in the prompt.
abbrev pub Arrives : List ℕ → List (List ℕ) → Type 0
Arrives buf [] = ⊥
Arrives buf (c ∷ []) = Unit {0}
Arrives buf (c ∷ d ∷ cs) =
    (length cp_prompt ≤ length (buf ++ c))
    × (strncmpend (buf ++ c) cp_prompt ≡ false)
    × Arrives (buf ++ c) (d ∷ cs)

strncmpend-prompt : (t : List ℕ) → strncmpend (t ++ cp_prompt) cp_prompt ≡ true
unfolding strncmpend
strncmpend-prompt t =
    let n : length (t ++ cp_prompt) - 10 ≡ length t = omega (arith, length-append t cp_prompt) in
    ap (λ k. str_eq (drop k (t ++ cp_prompt)) cp_prompt) n
    ∙ ap (λ s. str_eq s cp_prompt) (drop-append t cp_prompt)
    ∙ str_eq_self cp_prompt

recv_loop-more :
    (buf c : List ℕ) (rs : List Reading)
    → length cp_prompt ≤ length (buf ++ c)
    → strncmpend (buf ++ c) cp_prompt ≡ false
    → recv_loop buf (chunk c ∷ rs) ≡ recv_loop (buf ++ c) rs
unfolding recv_loop
recv_loop-more buf c rs long more = ground arith

recv_loop-last :
    (buf c : List ℕ) (rs : List Reading)
    → length cp_prompt ≤ length (buf ++ c)
    → strncmpend (buf ++ c) cp_prompt ≡ true
    → recv_loop buf (chunk c ∷ rs) ≡ (got (buf ++ c), rs)
unfolding recv_loop
recv_loop-last buf c rs long ends = ground arith

recv_loop-joined :
    (buf : List ℕ) (cs : List (List ℕ)) (t : List ℕ)
    → Arrives buf cs
    → buf ++ joined cs ≡ t ++ cp_prompt
    → recv_loop buf (map chunk cs) ≡ (got (t ++ cp_prompt), [])
recv_loop-joined buf [] t h e = elim h [ ]
recv_loop-joined buf (c ∷ []) t h e =
    let whole : buf ++ c ≡ t ++ cp_prompt = ap (λ x. buf ++ x) (sym (append-nil c)) ∙ e in
    recv_loop-last buf c []
      (omega (arith, ap (λ (x : List ℕ). length x) whole, length-append t cp_prompt))
      (ap (λ x. strncmpend x cp_prompt) whole ∙ strncmpend-prompt t)
    ∙ ap (λ x. (got x, [])) whole
recv_loop-joined buf (c ∷ d ∷ cs) t h e =
    recv_loop-more buf c (map chunk (d ∷ cs)) h.0 h.1
    ∙ recv_loop-joined (buf ++ c) (d ∷ cs) t h.2 (append_assoc buf c (joined (d ∷ cs)) ∙ e)

-- How many bytes write() takes before it fails.
abbrev pub capacity : List (Option ℕ) → ℕ
capacity [] = 0
capacity (none ∷ ws) = 0
capacity (some n ∷ ws) = n + capacity ws

abbrev Written : List ℕ → Option PmErr × List ℕ × List (Option ℕ) → Type 0
Written all (e, sent, ws) = (e ≡ some pm_esuccess) × (sent ≡ all)

write_loop-Written :
    (sent rest : List ℕ) (ws : List (Option ℕ))
    → length rest ≤ capacity ws
    → Written (sent ++ rest) (write_loop sent rest ws)
unfolding write_loop
write_loop-Written sent [] [] h = (refl, sym (append-nil sent))
write_loop-Written sent (c ∷ rest) [] h = absurd (omega arith)
write_loop-Written sent [] (none ∷ ws) h = (refl, sym (append-nil sent))
write_loop-Written sent (c ∷ rest) (none ∷ ws) h = absurd (omega arith)
write_loop-Written sent [] (some n ∷ ws) h = (refl, sym (append-nil sent))
write_loop-Written sent (c ∷ rest) (some n ∷ ws) h =
    let (e, all) =
      write_loop-Written (sent ++ take n (c ∷ rest)) (drop n (c ∷ rest)) ws
        (omega (arith, length-drop n (c ∷ rest))) in
    (
      e,
      all
          ∙ append_assoc sent (take n (c ∷ rest)) (drop n (c ∷ rest))
          ∙ ap (λ x. sent ++ x) (take-append-drop n (c ∷ rest)),
    )

-- What _server_send_command writes.
abbrev pub request : CStr → CStr → List ℕ
request cmd arg = snprintf (snprintf (format cmd arg) ++ cp_eol)

-- The lines of the responses, the last one first, or the error that they report.
abbrev pub outcome : Build → List Response → Outcome
outcome b rs =
    let e = first_verdict rs in
    if is_pm_success e then lines (reverse (map with_eol (all_lines b rs))) else err e

received-got :
    (b : Build) (rs : List Response)
    → All (IsClean b) rs
    → received (got (wire b (rs ++ Response.prompt ∷ []))) ≡ outcome b rs
unfolding received
received-got b rs h =
    let resp = parse_response (wire b (rs ++ Response.prompt ∷ [])) in
    let same = parse_response-wire b rs h in
    ap (λ r. if is_pm_success (server_retcode r) then lines r else err (server_retcode r)) same
    ∙ ap (λ e. if is_pm_success e then lines (reverse (map with_eol (all_lines b rs))) else err e)
        (server_retcode-lines b rs)

server_recv_response-outcome :
    (b : Build) (conn : Connection) (cs : List (List ℕ)) (rs : List Response)
    → conn.reads ≡ map chunk cs
    → Arrives [] cs
    → joined cs ≡ wire b (rs ++ Response.prompt ∷ [])
    → All (IsClean b) rs
    → (server_recv_response conn).0 ≡ outcome b rs
unfolding server_recv_response
server_recv_response-outcome b conn cs rs reads split whole clean =
    let text = wire-lines b rs clean in
    ap (λ r. received (recv_loop [] r).0) reads
    ∙ ap (λ r. received r.0) (recv_loop-joined [] cs _ split (whole ∙ text))
    ∙ ap (λ t. received (got t)) (sym text)
    ∙ received-got b rs clean

abbrev sent_all : Connection → CStr → CStr → List (Option ℕ) → Connection
sent_all conn cmd arg ws = record conn { sent = conn.sent ++ request cmd arg; writes = ws }

server_send_command-sent :
    (conn : Connection) (cmd arg : CStr)
    → length (request cmd arg) ≤ capacity conn.writes
    → (ws : List (Option ℕ)) × (server_send_command conn cmd arg
        ≡ (some pm_esuccess, sent_all conn cmd arg ws))
server_send_command-sent conn cmd arg fits =
    let r = write_loop conn.sent (request cmd arg) conn.writes in
    let (e, all) = write_loop-Written conn.sent (request cmd arg) conn.writes fits in
    (r.2, unfold server_send_command in λ i. (e i, record conn { sent = all i; writes = r.2 }))

server_command-sent :
    (conn : Connection) (cmd arg : CStr) (ws : List (Option ℕ))
    → server_send_command conn cmd arg ≡ (some pm_esuccess, sent_all conn cmd arg ws)
    → server_command conn cmd arg ≡ server_recv_response (sent_all conn cmd arg ws)
server_command-sent conn cmd arg ws e = unfold server_command in ap (λ x. after_send x.0 x.1) e

server_recv_response-sent : (conn : Connection) → (server_recv_response conn).1.sent ≡ conn.sent
unfolding server_recv_response
server_recv_response-sent conn = refl

-- A command whose bytes can be written, and whose responses come up to a prompt, in reads such that
-- after each but the last there are at least as many bytes as the prompt has, and they do not end in
-- the prompt: the bytes of the request are written, and the result is the lines of the responses, or
-- the error that they report. No text in the responses holds a carriage return.
pub server_command-outcome :
    (b : Build) (conn : Connection) (cmd arg : CStr) (cs : List (List ℕ)) (rs : List Response)
    → length (request cmd arg) ≤ capacity conn.writes
    → conn.reads ≡ map chunk cs
    → Arrives [] cs
    → joined cs ≡ wire b (rs ++ Response.prompt ∷ [])
    → All (IsClean b) rs
    → ((server_command conn cmd arg).0 ≡ outcome b rs)
      × ((server_command conn cmd arg).1.sent ≡ conn.sent ++ request cmd arg)
server_command-outcome b conn cmd arg cs rs fits reads split whole clean =
    let (ws, sent) = server_send_command-sent conn cmd arg fits in
    let conn' = sent_all conn cmd arg ws in
    let same = server_command-sent conn cmd arg ws sent in
    (
      ap (λ x. x.0) same ∙ server_recv_response-outcome b conn' cs rs reads split whole clean,
      ap (λ x. x.1.sent) same ∙ server_recv_response-sent conn',
    )
