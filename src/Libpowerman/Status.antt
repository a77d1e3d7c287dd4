-- ===== src/Libpowerman/Status.antt =====
-- What pm_node_status makes of the daemon's reply to a status query.
use mathlib.Core.List.{reverse, reverse-cons, append_assoc, map-append}
use powerman.Base.{
  ℕ, ◌-◌, ◌≤◌, ◌≡◌, refl, ap, ◌∙◌, ◌==◌, ◌&&◌, ◌||◌, Bool, true, false, List, [], ◌∷◌, ◌++◌, map,
  some, arith, All, All-append, if◌then◌else◌, length, length-append, take-length,
}
use powerman.CStr.{CStr, codes, str_eq}
use powerman.Arglist.{Arg, InterpState, st_unknown, st_off, st_on}
use powerman.Client.{Response}
use powerman.Client.Reply.{state_text, same_state, xstatus, qry_complete, client_query_status_reply}
use powerman.Client.Wire.{Build, cp_eol, response_lines, wire, null_text}
use powerman.Client.Input.{cp_linemax}
use powerman.Hostlist.{Hostlist}
use powerman.Libpowerman.{
  pm_esuccess, pm_equery, PmNodeState, pm_unknown, pm_off, pm_on, list_search,
}
use powerman.Libpowerman.Lines.{IsLine, with_eol}
use powerman.Libpowerman.Codes.{IsClean, all_lines, first_verdict}
use powerman.Libpowerman.Handle.{
  Connection, is_pm_success, lines, err, Status, state, no_state, chunk, xstatus_line, find_state,
  status_of, pm_node_status,
}
use powerman.Libpowerman.Transfer.{
  Arrives, joined, capacity, request, outcome, server_command-outcome,
}
use powerman.Libpowerman.StatusLine.{status_line, tail_of, str_eq-status_line}

-- Whether one of the Args says that the node is in the state.
unfoldable pub says : InterpState → CStr → List Arg → Bool
says st node [] = false
says st node (a ∷ as') = str_eq a.node node && same_state a.state st || says st node as'

-- The state of a node by the Args: off if one says so, else on if one says so, else unknown.
unfoldable pub node_state : CStr → List Arg → PmNodeState
unfolding says
node_state node args =
    if says st_off node args then pm_off else if says st_on node args then pm_on else pm_unknown

list_search-append :
    (xs ys : List CStr) (s : CStr)
    → list_search (xs ++ ys) s ≡ (list_search xs s || list_search ys s)
unfolding list_search
list_search-append [] ys s = refl
list_search-append (x ∷ xs) ys s = ground (arith, list_search-append xs ys s)

list_search-reverse : (xs : List CStr) (s : CStr) → list_search (reverse xs) s ≡ list_search xs s
unfolding list_search
list_search-reverse [] s = refl
list_search-reverse (x ∷ xs) s =
    ap (λ l. list_search l s) (reverse-cons x xs)
    ∙ list_search-append (reverse xs) (x ∷ []) s
    ∙ ground (arith, list_search-reverse xs s)

-- The responses of the daemon.
abbrev replies : List Arg → Bool → List Response
replies args error = map xstatus args ++ qry_complete error ∷ []

with_eol-xstatus :
    (b : Build) (a : Arg)
    → map with_eol (response_lines b (xstatus a)) ≡ status_line a.node a.state ∷ []
unfolding response_lines xstatus null_text
with_eol-xstatus b a =
    ap (λ l. (codes "303 " ++ l) ∷ [])
      (append_assoc a.node (codes ": " ++ state_text a.state) cp_eol)

list_search-replies :
    (b : Build) (args : List Arg) (error : Bool) (node : CStr) (st : InterpState)
    → list_search (map with_eol (all_lines b (replies args error))) (status_line node st)
      ≡ says st node args
unfolding says list_search
list_search-replies b [] true node st = unfold qry_complete response_lines in refl
list_search-replies b [] false node st = unfold qry_complete response_lines in refl
list_search-replies b (a ∷ args) error node st =
    let more = all_lines b (replies args error) in
    let line = status_line node st in
    let ih = list_search-replies b args error node st in
    ap (λ l. list_search l line) (map-append with_eol (response_lines b (xstatus a)) more)
    ∙ ap (λ l. list_search (l ++ map with_eol more) line) (with_eol-xstatus b a)
    ∙ λ i. str_eq-status_line a.node node a.state st i || ih i

first_verdict-replies :
    (args : List Arg) (error : Bool)
    → first_verdict (replies args error) ≡ (if error then pm_equery else pm_esuccess)
unfolding xstatus
first_verdict-replies [] true = unfold qry_complete in refl
first_verdict-replies [] false = unfold qry_complete in refl
first_verdict-replies (a ∷ args) error = first_verdict-replies args error

state_text-IsLine : (st : InterpState) → IsLine (state_text st)
unfolding state_text
state_text-IsLine st_on = ground arith
state_text-IsLine st_off = ground arith
state_text-IsLine st_unknown = ground arith

xstatus-IsClean : (b : Build) (a : Arg) → IsLine a.node → IsClean b (xstatus a)
unfolding response_lines xstatus null_text
xstatus-IsClean b a h =
    let value =
      All-append (λ c. (c == 13) ≡ false) (codes ": ") (state_text a.state) (ground arith)
        (state_text-IsLine a.state) in
    let tail =
      All-append (λ c. (c == 13) ≡ false) a.node (codes ": " ++ state_text a.state) h value in
    (refl, ((refl, (refl, (refl, (refl, tail)))), tt))

replies-IsClean :
    (b : Build) (args : List Arg) (error : Bool)
    → All (λ a. IsLine a.node) args
    → All (IsClean b) (replies args error)
replies-IsClean b [] true h = unfold response_lines qry_complete in (ground arith)
replies-IsClean b [] false h = unfold response_lines qry_complete in (ground arith)
replies-IsClean b (a ∷ args) error h = (xstatus-IsClean b a h.0, replies-IsClean b args error h.1)

length-state_text : (st : InterpState) → length (state_text st) ≤ 7
unfolding state_text
length-state_text st_on = omega arith
length-state_text st_off = omega arith
length-state_text st_unknown = omega arith

xstatus_line-status_line :
    (node : CStr) (st : InterpState)
    → length node ≤ 8000
    → xstatus_line node (state_text st) ≡ status_line node st
unfolding xstatus_line
xstatus_line-status_line node st short = take-length (cp_linemax - 1) (status_line node st) (
    omega (
      arith,
      length-append {0} node (tail_of st),
      length-append {0} (state_text st) cp_eol,
      length-state_text st,
    ))

searched :
    (b : Build) (args : List Arg) (error : Bool) (node : CStr) (st : InterpState)
    → length node ≤ 8000
    → list_search
        (reverse (map with_eol (all_lines b (replies args error))))
        (xstatus_line node (state_text st))
      ≡ says st node args
searched b args error node st short =
    let sent = map with_eol (all_lines b (replies args error)) in
    list_search-reverse sent (xstatus_line node (state_text st))
    ∙ ap (list_search sent) (xstatus_line-status_line node st short)
    ∙ list_search-replies b args error node st

find_state-replies :
    (b : Build) (args : List Arg) (error : Bool) (node : CStr)
    → length node ≤ 8000
    → find_state (reverse (map with_eol (all_lines b (replies args error)))) node
      ≡ node_state node args
unfolding find_state node_state state_text
find_state-replies b args error node short =
    let off = searched b args error node st_off short in
    let on = searched b args error node st_on short in
    λ i. if off i then pm_off else if on i then pm_on else pm_unknown

-- What pm_node_status returns: the state of the node by the Args, or PM_EQUERY.
abbrev answer : CStr → List Arg → Bool → Status
answer node args error = if error then no_state (some pm_equery) else state (node_state node args)

status_of-outcome :
    (b : Build) (args : List Arg) (error : Bool) (node : CStr)
    → length node ≤ 8000
    → status_of (outcome b (replies args error)) node ≡ answer node args error
unfolding status_of
status_of-outcome b args true node short =
    let resp = reverse (map with_eol (all_lines b (replies args true))) in
    ap (λ e. status_of (if is_pm_success e then lines resp else err e) node)
      (first_verdict-replies args true)
status_of-outcome b args false node short =
    let resp = reverse (map with_eol (all_lines b (replies args false))) in
    ap (λ e. status_of (if is_pm_success e then lines resp else err e) node)
      (first_verdict-replies args false)
    ∙ ap state (find_state-replies b args false node short)

-- pm_node_status, when the daemon answers the query with the reply that it makes from the Args of the
-- command: the state that is stored is the state of the node by the Args; if a device failed, the
-- result is PM_EQUERY. The reply may come in several reads, if after each but the last there are at
-- least as many bytes as the prompt has, and they do not end in the prompt. The bytes of the request
-- can be written, the node's name has at most 8000 bytes, and no name in the Args holds a carriage
-- return.
pub pm_node_status-args :
    (b : Build) (hl : Hostlist) (conn : Connection) (node : CStr) (args : List Arg) (error : Bool)
    (cs : List (List ℕ))
    → length node ≤ 8000
    → length (request (codes "status %s") node) ≤ capacity conn.writes
    → conn.reads ≡ map chunk cs
    → Arrives [] cs
    → joined cs ≡ wire b (client_query_status_reply hl true args error ++ Response.prompt ∷ [])
    → All (λ a. IsLine a.node) args
    → (pm_node_status (some conn) node).0
      ≡ (if error then no_state (some pm_equery) else state (node_state node args))
unfolding client_query_status_reply pm_node_status
pm_node_status-args b hl conn node args error cs short fits reads split whole clean =
    let out =
      server_command-outcome b conn (codes "status %s") node cs (replies args error) fits reads
        split whole (replies-IsClean b args error clean) in
    ap (λ o. status_of o node) out.0 ∙ status_of-outcome b args error node short
