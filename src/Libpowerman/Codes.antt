-- ===== src/Libpowerman/Codes.antt =====
-- The error that a client gets for the responses of the daemon.
use mathlib.Core.List.{reverse, reverse-append, append_assoc, map-append}
use powerman.Base.{
  ◌≡◌, refl, ap, ◌∙◌, sym, Bool, true, false, List, [], ◌∷◌, ◌++◌, map, Option, none, some, All,
  All-append,
}
use powerman.CStr.{CStr, isspace}
use powerman.Client.{Response}
use powerman.Client.Wire.{Build, cp_eol, cp_prompt, join_lines, response_lines, response_text, wire}
use powerman.Libpowerman.{
  PmErr, pm_esuccess, pm_eserverparse, pm_eunknown, pm_etoolong, pm_einternal, pm_ehostlist,
  pm_einprogress, pm_enosuchnodes, pm_ecommand, pm_equery, pm_eunimpl, parse_response, line_error,
  retcode_loop, server_retcode,
}
use powerman.Libpowerman.Lines.{IsLine, with_eol, parse_response-lines}

-- What a response says of the request: a result, or none if more responses follow.
abbrev pub verdict : Response → Option PmErr
verdict Response.prompt = none
verdict Response.version = some pm_esuccess
verdict Response.rsp_quit = some pm_esuccess
verdict Response.rsp_com_complete = some pm_esuccess
verdict Response.rsp_qry_complete = some pm_esuccess
verdict (Response.rsp_telemetry on) = some pm_esuccess
verdict (Response.rsp_exprange on) = some pm_esuccess
verdict Response.err_unknown = some pm_eunknown
verdict Response.err_toolong = some pm_etoolong
verdict Response.err_internal = some pm_einternal
verdict (Response.err_hostlist s) = some pm_ehostlist
verdict Response.err_clibusy = some pm_einprogress
verdict (Response.err_nosuchnodes s) = some pm_enosuchnodes
verdict Response.err_com_complete = some pm_ecommand
verdict Response.err_qry_complete = some pm_equery
verdict Response.err_unimpl = some pm_eunimpl
verdict _ = none

abbrev or_else : PmErr → Option PmErr → PmErr
or_else e none = e
or_else e (some e') = e'

-- The lines of a response, in the client's order, leave what it says.
retcode_loop-response :
    (b : Build) (r : Response) (e : PmErr)
    → retcode_loop e (reverse (map with_eol (response_lines b r))) ≡ or_else e (verdict r)
unfolding response_lines retcode_loop isspace
retcode_loop-response b Response.prompt e = refl
retcode_loop-response b _ e = refl

retcode_loop-append :
    (e : PmErr) (xs ys : List CStr)
    → retcode_loop e (xs ++ ys) ≡ retcode_loop (retcode_loop e xs) ys
unfolding retcode_loop
retcode_loop-append e [] ys = refl
retcode_loop-append e (x ∷ xs) ys = retcode_loop-append (line_error e x) xs ys

-- The lines of several responses.
abbrev pub all_lines : Build → List Response → List CStr
all_lines b [] = []
all_lines b (r ∷ rs) = response_lines b r ++ all_lines b rs

-- The first verdict, or pm_eserverparse if there is none.
abbrev pub first_verdict : List Response → PmErr
first_verdict [] = pm_eserverparse
first_verdict (r ∷ rs) = or_else (first_verdict rs) (verdict r)

pub server_retcode-lines :
    (b : Build) (rs : List Response)
    → server_retcode (reverse (map with_eol (all_lines b rs))) ≡ first_verdict rs
unfolding server_retcode
server_retcode-lines b [] = unfold retcode_loop in refl
server_retcode-lines b (r ∷ rs) =
    let ls = response_lines b r in
    let more = all_lines b rs in
    ap (λ l. retcode_loop pm_eserverparse (reverse l)) (map-append with_eol ls more)
    ∙ ap (retcode_loop pm_eserverparse) (reverse-append (map with_eol ls) (map with_eol more))
    ∙ retcode_loop-append pm_eserverparse (reverse (map with_eol more)) (reverse (map with_eol ls))
    ∙ ap (λ e. retcode_loop e (reverse (map with_eol ls))) (server_retcode-lines b rs)
    ∙ retcode_loop-response b r (first_verdict rs)

-- A response that is no prompt and holds no carriage return but those of its ends of line.
abbrev pub is_prompt : Response → Bool
is_prompt Response.prompt = true
is_prompt _ = false

abbrev pub IsClean : Build → Response → Type 0
IsClean b r = (is_prompt r ≡ false) × All IsLine (response_lines b r)

pub response_text-lines :
    (b : Build) (r : Response)
    → is_prompt r ≡ false
    → response_text b r ≡ join_lines (response_lines b r)
unfolding response_text
response_text-lines b Response.prompt h = cc
response_text-lines b _ h = refl

join_lines-append : (ls ls' : List CStr) → join_lines (ls ++ ls') ≡ join_lines ls ++ join_lines ls'
unfolding join_lines
join_lines-append [] ls' = refl
join_lines-append (l ∷ ls) ls' =
    ap (λ t. l ++ (cp_eol ++ t)) (join_lines-append ls ls')
    ∙ sym (append_assoc l (cp_eol ++ join_lines ls) (join_lines ls'))

-- What the daemon sends: the lines of its responses, and the prompt.
pub wire-lines :
    (b : Build) (rs : List Response)
    → All (IsClean b) rs
    → wire b (rs ++ Response.prompt ∷ []) ≡ join_lines (all_lines b rs) ++ cp_prompt
unfolding wire
wire-lines b [] h = refl
wire-lines b (r ∷ rs) h =
    let ls = response_lines b r in
    let more = all_lines b rs in
    ap (λ t. t ++ wire b (rs ++ Response.prompt ∷ [])) (response_text-lines b r h.0.0)
    ∙ ap (λ t. join_lines ls ++ t) (wire-lines b rs h.1)
    ∙ sym (append_assoc (join_lines ls) (join_lines more) cp_prompt)
    ∙ ap (λ t. t ++ cp_prompt) (sym (join_lines-append ls more))

all_lines-IsLine :
    (b : Build) (rs : List Response) → All (IsClean b) rs → All IsLine (all_lines b rs)
all_lines-IsLine b [] h = tt
all_lines-IsLine b (r ∷ rs) h =
    All-append IsLine (response_lines b r) (all_lines b rs) h.0.1 (all_lines-IsLine b rs h.1)

pub parse_response-wire :
    (b : Build) (rs : List Response)
    → All (IsClean b) rs
    → parse_response (wire b (rs ++ Response.prompt ∷ [])) ≡ reverse (map with_eol (all_lines b rs))
parse_response-wire b rs h =
    ap parse_response (wire-lines b rs h)
    ∙ parse_response-lines (all_lines b rs) (all_lines-IsLine b rs h)

-- The client library gets the verdict of the first response of the daemon that has one, and
-- PM_ESERVERPARSE if none has.
pub server_retcode-wire :
    (b : Build) (rs : List Response)
    → All (IsClean b) rs
    → server_retcode (parse_response (wire b (rs ++ Response.prompt ∷ []))) ≡ first_verdict rs
server_retcode-wire b rs h =
    ap server_retcode (parse_response-wire b rs h) ∙ server_retcode-lines b rs
