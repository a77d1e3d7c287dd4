-- ===== src/Client/Input/Logins.antt =====
-- A line of input puts no login on a queue, and takes none off.
use mathlib.Core.Path.{subst}
use powerman.Device.Poll.Calm.{Silent, AllSilent}
use powerman.Device.Connect.{is_log_in}
use powerman.Base.{
  refl, sym, All, ◌↔◌, inl, inr, Bool-cases, Bool, ◌&&◌, if◌then◌else◌, ap, [], ◌∷◌, ◌≡◌, true,
  List, Option, none, some, ap, ◌∙◌, ◌==◌, if_both, is_some,
}
use powerman.CStr.{CStr}
use powerman.Commands.{Com}
use powerman.Hostlist.{Hostlist}
use powerman.Client.{Output, Response, Client, Command, World, client_printf}
use powerman.Client.Finish.Pending.{is_request}
use powerman.Device.{Action, Device}
use powerman.Device.Enqueue.{Request, dev_enqueue_actions}
use powerman.Device.Enqueue.Logins.{logins, all_logins, dev_enqueue_actions-logins}
use powerman.Client.Input.{
  Line, toolong, busy, help, list_nodes, telemetry, exprange, quit, unknown, command, device,
  Parsed, classify, strip_whitespace, create_command, enqueue_command, finish_command, run_command,
  run_line, parse_input,
}
use powerman.Client.Input.Requests.{CommandFree, classify-CommandFree}
use powerman.Client.Input.Balance.{Made, create_command-Made}

enqueue_command-logins :
    (hostlist : Hostlist) (devs : List Device) (w : World) (c : Client) (cmd : Command)
    → is_request cmd.pm ≡ true
    → all_logins (enqueue_command hostlist devs w c cmd).0 ≡ all_logins devs
unfolding enqueue_command
enqueue_command-logins hostlist devs w c cmd ok =
    let r : Request = record {
      complete_fun = true;
      vpf_fun = c.telemetry;
      client_id = c.client_id;
      arglist = some cmd.arglist;
    } in
    let q = dev_enqueue_actions-logins hostlist devs w cmd.pm cmd.hl r ok in
    let n = (dev_enqueue_actions hostlist devs w cmd.pm cmd.hl r).1 in
    if_both (λ (p : Parsed). all_logins p.0 ≡ all_logins devs) (n == 0) _ _ q q

finish_command-logins :
    (hostlist : Hostlist) (devs : List Device) (w : World) (c : Client) (made : Option Command)
    (rs : List Response) (v w' : World)
    → (pm : Com) → Made v pm (made, rs, w')
    → is_request pm ≡ true
    → all_logins (finish_command hostlist devs w c made rs).0 ≡ all_logins devs
unfolding finish_command Made
finish_command-logins hostlist devs w c none rs v w' pm m ok = refl
finish_command-logins hostlist devs w c (some cmd) rs v w' pm m ok =
    enqueue_command-logins hostlist devs w (client_printf c rs) cmd (ap is_request m.1 ∙ ok)

run_line-logins :
    (hostlist : Hostlist) (flush : Output → Output) (devs : List Device) (w : World) (c : Client)
    (line : Line)
    → CommandFree c.cmd line
    → all_logins (run_line hostlist flush devs w c line).0 ≡ all_logins devs
unfolding run_line run_command CommandFree
run_line-logins hostlist flush devs w c (command pm arg) free =
    let r = create_command hostlist w.conf devs w pm arg in
    finish_command-logins hostlist devs r.2 c r.0 r.1 w r.2 pm
      (create_command-Made hostlist w.conf devs w pm arg) free.1
run_line-logins hostlist flush devs w c toolong free = refl
run_line-logins hostlist flush devs w c busy free = refl
run_line-logins hostlist flush devs w c help free = refl
run_line-logins hostlist flush devs w c list_nodes free = refl
run_line-logins hostlist flush devs w c telemetry free = refl
run_line-logins hostlist flush devs w c exprange free = refl
run_line-logins hostlist flush devs w c quit free = refl
run_line-logins hostlist flush devs w c unknown free = refl
run_line-logins hostlist flush devs w c (device arg) free = refl

-- _parse_input leaves the logins on the queues of all devices as they are, whatever the line says: it
-- puts no login on a queue, and takes none off.
pub parse_input-logins :
    (hostlist : Hostlist) (flush : Output → Output) (devs : List Device) (w : World) (c : Client)
    (input : CStr)
    → all_logins (parse_input hostlist flush devs w c input).0 ≡ all_logins devs
unfolding parse_input
parse_input-logins hostlist flush devs w c input =
    run_line-logins hostlist flush devs w c (classify (is_some c.cmd) (strip_whitespace input))
      (classify-CommandFree c (strip_whitespace input))

Silent-logins : (acts : List Action) → Silent acts ↔ Silent (logins acts)
Silent-logins [] = ((λ h. tt), (λ h. tt))
Silent-logins (act ∷ acts) =
    let (go, back) = Silent-logins acts in
    let ls = logins acts in
    let aim : Bool → Type 0 = λ b. Silent (act ∷ acts) ↔ Silent (if b then act ∷ ls else ls) in
    elim (Bool-cases (is_log_in act.pm)) [
      | inl e ↦ subst aim (sym e) ((λ h. (h.0, go h.1)), (λ h. (h.0, back h.1)))
      | inr e ↦
          subst aim (sym e) ((λ h. go h.1), (λ h. (ap (λ b. b && act.complete_fun) e, back h)))
    ]

AllSilent-logins : (devs : List Device) → AllSilent devs ↔ All Silent (all_logins devs)
AllSilent-logins [] = ((λ h. tt), (λ h. tt))
AllSilent-logins (dev ∷ devs) =
    let (go, back) = AllSilent-logins devs in
    let (one, one') = Silent-logins dev.acts in
    ((λ h. (one h.0, go h.1)), (λ h. (one' h.0, back h.1)))

-- So a line keeps what dev_post_poll-AllBalanced asks of the logins.
parse_input-AllSilent :
    (hostlist : Hostlist) (flush : Output → Output) (devs : List Device) (w : World) (c : Client)
    (input : CStr)
    → AllSilent devs
    → AllSilent (parse_input hostlist flush devs w c input).0
parse_input-AllSilent hostlist flush devs w c input s =
    let same = parse_input-logins hostlist flush devs w c input in
    (AllSilent-logins (parse_input hostlist flush devs w c input).0).1
      (subst (All Silent) (sym same) ((AllSilent-logins devs).0 s))
