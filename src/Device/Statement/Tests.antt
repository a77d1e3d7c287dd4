-- ===== src/Device/Statement/Tests.antt =====
-- A device that says of plug 1 that it is on, at a setplugstate.
use powerman.Base.{ℕ, ◌≡◌, refl, ◌==◌, true, false, List, [], ◌∷◌, none, some}
use powerman.CStr.{CStr, codes, str_eq}
use powerman.Xregex.{XregexMatch, xregex_match_sub_strdup}
use powerman.Pluglist.{pluglist_find}
use powerman.Arglist.{st_off, st_on, arglist_create, arglist_find, set_arg_at, alloc}
use powerman.Device.{Interp}
use powerman.Device.Statement.{
  Exec, find_arg, interp_state, target_name, find_plug, process_setplugstate,
}
use powerman.Device.Statement.PlugState.{told, process_setplugstate_tells}
use powerman.Samples.{env, dev, exec, plug1, t1}

-- The match of "plug ([0-9]+): (.*)".
abbrev answer : XregexMatch
answer = record {
  nmatch = 3;
  pmatch = some (0, 10) ∷ some (5, 6) ∷ some (8, 10) ∷ [];
  str = some (codes "plug 1: ON");
  result = true;
  used = true;
}

abbrev heard : Exec
heard = record exec { dev = record dev { xmatch = answer } }

abbrev interps : List Interp
interps =
    record { state = st_on; re = codes "ON" } ∷ record { state = st_off; re = codes "OFF" } ∷ []

heard_on :
    find_arg
      (process_setplugstate env heard none (some 1) (some 2) interps).w.args
      (some 0)
      (some t1)
    ≡ some (record { node = t1; val = some (codes "ON"); state = st_on })
unfolding process_setplugstate find_arg arglist_find alloc arglist_create xregex_match_sub_strdup
    pluglist_find str_eq set_arg_at
heard_on = refl

plug_name : (target_name answer heard.e.plugs none (some 1)).0 ≡ some (codes "1")
unfolding target_name xregex_match_sub_strdup
plug_name = refl

status_text : (xregex_match_sub_strdup answer (some 2)).0 ≡ some (codes "ON")
unfolding xregex_match_sub_strdup
status_text = refl

plug_found : find_plug heard.dev (codes "1") ≡ some plug1
unfolding find_plug pluglist_find str_eq
plug_found = refl

arglist_there : heard.w.args.cell 0 ≡ some (arglist_create (t1 ∷ []))
unfolding alloc
arglist_there = refl

process_setplugstate_tells_example :
    let x' = process_setplugstate env heard none (some 1) (some 2) interps in
    let state' = interp_state env.regexec interps (codes "ON") in
    (x'.finished ≡ true)
    × ((key : CStr)
        → find_arg x'.w.args (some 0) (some key)
          ≡ elim (find_arg heard.w.args (some 0) (some key)) [
            | none ↦ none
            | some a ↦ some (told t1 state' (codes "ON") a key)
          ])
    × ((q : ℕ) → (0 == q) ≡ false → x'.w.args.cell q ≡ heard.w.args.cell q)
process_setplugstate_tells_example =
    process_setplugstate_tells env heard none (some 1) (some 2) interps (codes "1") (codes "ON") t1
      plug1 0 (arglist_create (t1 ∷ [])) plug_name status_text plug_found refl refl arglist_there
