-- ===== src/Client/Wire.antt =====
-- libcommon/client_proto.h and _client_printf of client.c: the text of the responses.
use powerman.Base.{
  ℕ, ◌+◌, ◌/◌, ◌%◌, zero, suc, Bool, true, false, List, [], ◌∷◌, ◌++◌, Option, none, some,
  if◌then◌else◌, ltb, length,
}
use powerman.CStr.{CStr, codes}
use powerman.Client.{Response}

-- CP_EOL
abbrev pub cp_eol : CStr
cp_eol = 13 ∷ 10 ∷ []

abbrev pub cp_prompt : CStr
cp_prompt = codes "powerman> "

-- What the build puts into the formats: the version, and the place of an internal error.
pub record Build : Type 0 where
  pub version : CStr
  pub place : CStr

-- A %s that is given NULL, as glibc prints it.
unfoldable pub null_text : Option CStr → CStr
null_text none = codes "(null)"
null_text (some s) = s

unfoldable pub on_off : Bool → CStr
on_off true = codes "ON"
on_off false = codes "OFF"

-- The digits of n in front of a text; n rounds are enough.
digits : ℕ → ℕ → CStr → CStr
digits zero n acc = acc
digits (suc fuel) n acc =
    let acc' = (48 + n % 10) ∷ acc in
    let rest = digits fuel (n / 10) acc' in if ltb n 10 then acc' else rest

-- %-3.3d of a number that is not negative.
unfoldable pub three_digits : ℕ → CStr
unfolding digits
three_digits n =
    let ds = digits (suc n) n [] in
    if ltb (length ds) 2 then 48 ∷ 48 ∷ ds else if ltb (length ds) 3 then 48 ∷ ds else ds

-- The lines of a response, each without its CP_EOL.
unfoldable pub response_lines : Build → Response → List CStr
unfolding null_text on_off three_digits
response_lines b Response.prompt = []
response_lines b Response.version = (codes "001 " ++ b.version) ∷ []
response_lines b Response.rsp_quit = codes "101 Goodbye" ∷ []
response_lines b Response.rsp_com_complete = codes "102 Command completed successfully" ∷ []
response_lines b Response.rsp_qry_complete = codes "103 Query complete" ∷ []
response_lines b (Response.rsp_telemetry on) = (codes "104 Telemetry " ++ on_off on) ∷ []
response_lines b (Response.rsp_exprange on) = (codes "105 Hostrange expansion " ++ on_off on) ∷ []
response_lines b Response.err_unknown = codes "201 Unknown command" ∷ []
response_lines b Response.err_toolong = codes "203 Command too long" ∷ []
response_lines b Response.err_internal = (codes "204 Internal powermand error: " ++ b.place) ∷ []
response_lines b (Response.err_hostlist s) = (codes "205 Hostlist error: " ++ s) ∷ []
response_lines b Response.err_clibusy = codes "208 Command in progress" ∷ []
response_lines b (Response.err_nosuchnodes s) = (codes "209 No such nodes: " ++ s) ∷ []
response_lines b Response.err_com_complete = codes "210 Command completed with errors" ∷ []
response_lines b Response.err_qry_complete = codes "211 Query completed with errors" ∷ []
response_lines b Response.err_unimpl =
    codes "213 Command cannot be handled by power control device(s)" ∷ []
response_lines b Response.info_help =
    codes "301 nodes              - query node list"
    ∷ codes "301 device [<nodes>]   - query power control device status"
    ∷ codes "301 status [<nodes>]   - query power status"
    ∷ codes "301 on <nodes>         - power on"
    ∷ codes "301 off <nodes>        - power off"
    ∷ codes "301 cycle <nodes>      - power cycle"
    ∷ codes "301 reset <nodes>      - hardware reset (if available)"
    ∷ codes "301 temp [<nodes>]     - query temperature (if available)"
    ∷ codes "301 beacon [<nodes>]   - query beacon status (if available)"
    ∷ codes "301 flash <nodes>      - set beacon to ON (if available)"
    ∷ codes "301 unflash <nodes>    - set beacon to OFF (if available)"
    ∷ codes "301 telemetry          - toggle telemetry display"
    ∷ codes "301 exprange           - toggle host range expansion"
    ∷ codes "301 help               - display help"
    ∷ codes "301 quit               - logout"
    ∷ []
response_lines b (Response.info_status on off unknown) =
    (codes "302 on:      " ++ on)
    ∷ (codes "302 off:     " ++ off)
    ∷ (codes "302 unknown: " ++ unknown)
    ∷ []
response_lines b (Response.info_xstatus node value) =
    (codes "303 " ++ (node ++ (codes ": " ++ null_text value))) ∷ []
response_lines b (Response.info_device name state reconnects actions type' hosts) =
    (codes "304 "
      ++ (name
          ++ (codes ": state="
              ++ (state
                  ++ (codes " reconnects="
                      ++ (three_digits reconnects
                          ++ (codes " actions="
                              ++ (three_digits actions
                                  ++ (codes " type="
                                      ++ (type' ++ (codes " hosts=" ++ hosts)))))))))))
    ∷ []
response_lines b (Response.info_telemetry s) = (codes "305 " ++ s) ∷ []
response_lines b (Response.info_nodes s) = (codes "306 " ++ s) ∷ []
response_lines b (Response.info_xnodes s) = (codes "307 " ++ s) ∷ []
response_lines b (Response.info_acterror s) = (codes "308 " ++ s) ∷ []

unfoldable pub join_lines : List CStr → CStr
join_lines [] = []
join_lines (l ∷ ls) = l ++ (cp_eol ++ join_lines ls)

unfoldable pub response_text : Build → Response → CStr
unfolding response_lines join_lines
response_text b Response.prompt = cp_prompt
response_text b r = join_lines (response_lines b r)

-- What a client reads when the responses are sent in order.
unfoldable pub wire : Build → List Response → CStr
unfolding response_text
wire b [] = []
wire b (r ∷ rs) = response_text b r ++ wire b rs
