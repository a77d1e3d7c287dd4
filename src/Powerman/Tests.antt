-- ===== src/Powerman/Tests.antt =====
-- Runs of powerman.c at concrete inputs.
use powerman.Base.{ℕ, ◌≡◌, refl, true, false, List, [], ◌∷◌, ◌++◌, some, none, All, map, length}
use powerman.CStr.{CStr, codes, isspace, strchr}
use powerman.Samples.{hosts, t1, t2}
use powerman.Client.{Response}
use powerman.Client.Wire.{Build, cp_prompt, response_lines, response_text, wire}
use powerman.Powerman.{opt_query_all, opt_on, opt_telemetry, prepared}
use powerman.Powerman.Session.{Session, done, exits, runs_on, expect_loop, session}
use powerman.Powerman.Read.{expect_hangs}
use powerman.Hostlist.{Hostlist}
use powerman.Argv.{is_sep}
use powerman.Libpowerman.Nodes.{IsWord}
use powerman.Powerman.Execute.{
  Turn, IsTurn, answers, requests, printed, taken, status, session-turns,
}

abbrev build : Build
build = record { version = codes "2.3"; place = codes "client.c::1" }

abbrev served : List ℕ → Session
served from' = record { from = from'; reset = false; to = []; out = [] }

abbrev one_byte : ℕ → ℕ
one_byte n = 0

-- -x, -Q t1, and a -1 whose command fails, before a -l.
abbrev expanding : Turn
expanding = record {
  request = codes "exprange";
  infos = [];
  last = Response.rsp_exprange true;
  code = 0;
}

abbrev querying : Turn
querying = record {
  request = codes "status t1";
  infos = Response.info_xstatus t1 (some (codes "on")) ∷ [];
  last = Response.rsp_qry_complete;
  code = 0;
}

abbrev failing : Turn
failing = record {
  request = codes "on t2";
  infos = Response.info_acterror (codes "t2: timed out") ∷ [];
  last = Response.err_com_complete;
  code = 210;
}

abbrev turns : List Turn
turns = expanding ∷ querying ∷ failing ∷ expanding ∷ []

abbrev conversation : List Turn → List ℕ
conversation ts =
    response_text build Response.version
    ++ (cp_prompt ++ (answers build ts ++ response_text build Response.rsp_quit))

abbrev three : List Turn
three = expanding ∷ querying ∷ failing ∷ []

session_prints :
    session one_byte false (map (λ (t : Turn). t.request) turns) (served (conversation three))
    ≡ done 210 (record {
      from = [];
      reset = false;
      to = codes "exprange\r\nstatus t1\r\non t2\r\nquit\r\n";
      out = codes "t1: on" ∷ codes "t2: timed out" ∷ codes "Command completed with errors" ∷ [];
    })
unfolding session response_text wire isspace
session_prints = refl

-- A line without text ends powerman with an error.
session_empty_line :
    session one_byte false
      (codes "nodes" ∷ [])
      (served (codes "001 2.3\r\npowerman> 306 \r\n103 Query complete\r\npowerman> "))
    ≡ exits []
unfolding session isspace
session_empty_line = refl

session_eof :
    session one_byte false (codes "nodes" ∷ []) (served (codes "001 2.3\r\npower")) ≡ runs_on
unfolding session isspace
session_eof = refl

-- A hostlist of names, as a text with commas.
abbrev with_commas : List CStr → CStr
with_commas [] = []
with_commas (h ∷ []) = h
with_commas (h ∷ h' ∷ hl) = h ++ b',' ∷ with_commas (h' ∷ hl)

abbrev ranged : Hostlist
ranged = record hosts { ranged_string = with_commas }

-- -T comes first, whatever its place, and a further argument makes -q ask for targets.
prepared_order :
    prepared ranged (opt_on t1 ∷ opt_telemetry ∷ opt_query_all ∷ []) (t2 ∷ [])
    ≡ some (
        record { fmt = codes "telemetry"; argv = none; sendstr = some (codes "telemetry") }
        ∷ record { fmt = codes "on %s"; argv = some (t1 ∷ []); sendstr = some (codes "on t1") }
        ∷ record {
          fmt = codes "status %s";
          argv = some (t2 ∷ []);
          sendstr = some (codes "status t2");
        }
        ∷ [])
unfolding prepared is_sep isspace strchr
prepared_order = refl

IsTurn-turns : All (IsTurn build) turns
unfolding response_lines
IsTurn-turns = search

version_word : IsWord build.version
unfolding isspace
version_word = search

session-turns_example :
    session one_byte false (map (λ (t : Turn). t.request) turns) (served (conversation three))
    ≡ done (status false turns) (record {
      from = [];
      reset = false;
      to = requests (taken false turns) ++ codes "quit\r\n";
      out = printed build (taken false turns);
    })
session-turns_example =
    session-turns build one_byte false turns (served []) version_word IsTurn-turns

expect_hangs_example :
    expect_loop one_byte 1000 cp_prompt [] (length cp_prompt) (served (codes "power")) ≡ runs_on
expect_hangs_example =
    expect_hangs one_byte (codes "power") b'm' (codes "an> ") (served []) 1000 refl

abbrev two_targets : CStr
two_targets = codes "t1,t2"
