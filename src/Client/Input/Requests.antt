-- ===== src/Client/Input/Requests.antt =====
-- The commands that a line of input may ask for, and when.
use mathlib.Core.Path.{subst}
use powerman.Base.{
  ◌≡◌, inl, inr, true, List, [], ◌∷◌, Option, none, some, arith, leb, length, is_some, Option-cases,
  All, if_both, if_cases,
}
use powerman.CStr.{CStr}
use powerman.Client.{Command, Client}
use powerman.Client.Finish.Pending.{is_request}
use powerman.Client.Input.{
  Line, toolong, busy, help, list_nodes, telemetry, exprange, quit, unknown, command, device, Test,
  prefix, argument, run_test, tests, first_line, scan_arg, cp_linemax, classify,
}

-- The lines for which _parse_input creates a command.
Requests : Line → Type 0
Requests (command pm arg) = is_request pm ≡ true
Requests _ = Unit

TestRequests : Test → Type 0
TestRequests (prefix word line) = Requests line
TestRequests (argument word line) = (arg : CStr) → Requests (line arg)

run_test-Requests :
    (str : CStr) (t : Test) (line : Line)
    → run_test str t ≡ some line
    → TestRequests t
    → Requests line
unfolding run_test TestRequests
run_test-Requests str (prefix word l) line h r = subst Requests (ground arith) r
run_test-Requests str (argument word l) line h r = elim (Option-cases (scan_arg str word)) [
  | inl e ↦ absurd (ground arith)
  | inr (arg, e) ↦ subst Requests (ground arith) (r arg)
]

first_line-Requests :
    (str : CStr) (ts : List Test) → All TestRequests ts → Requests (first_line str ts)
unfolding first_line Requests
first_line-Requests str [] r = tt
first_line-Requests str (t ∷ ts) r = elim (Option-cases (run_test str t)) [
  | inl e ↦ rw (e, first_line) (first_line-Requests str ts r.1)
  | inr (line, e) ↦ rw (e, first_line) (run_test-Requests str t line e r.0)
]

tests-Requests : All TestRequests tests
unfolding TestRequests Requests
tests-Requests = search

-- A client with a command is too long or busy, never a new command.
unfoldable pub CommandFree : Option Command → Line → Type 0
CommandFree cmd (command pm arg) = (cmd ≡ none) × (is_request pm ≡ true)
CommandFree cmd _ = Unit

Requests-CommandFree :
    (cmd : Option Command) (line : Line) → cmd ≡ none → Requests line → CommandFree cmd line
unfolding Requests CommandFree
Requests-CommandFree cmd (command pm arg) h r = (h, r)
Requests-CommandFree cmd toolong h r = tt
Requests-CommandFree cmd busy h r = tt
Requests-CommandFree cmd help h r = tt
Requests-CommandFree cmd list_nodes h r = tt
Requests-CommandFree cmd telemetry h r = tt
Requests-CommandFree cmd exprange h r = tt
Requests-CommandFree cmd quit h r = tt
Requests-CommandFree cmd unknown h r = tt
Requests-CommandFree cmd (device arg) h r = tt

pub classify-CommandFree :
    (c : Client) (str : CStr) → CommandFree c.cmd (classify (is_some c.cmd) str)
unfolding classify CommandFree
classify-CommandFree c str = if_both (CommandFree c.cmd) (leb cp_linemax (length str)) _ _ tt (
    if_cases (CommandFree c.cmd) (is_some c.cmd) busy (first_line str tests) (λ _. tt)
      (λ none'.
        Requests-CommandFree c.cmd (first_line str tests) (ground arith)
          (first_line-Requests str tests tests-Requests)))
