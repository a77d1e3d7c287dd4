-- ===== src/Client/Input/Balance.antt =====
-- A line of input against what the clients wait for: the callbacks that the queues of all devices
-- owe.
use mathlib.Core.Path.{subst}
use powerman.Base.{
  ℕ, ◌+◌, ◌<◌, ◌≡◌, ◌≢◌, refl, sym, ap, ◌∙◌, inl, inr, true, not, List, ◌∷◌, ◌++◌, Option, none,
  some, arith, ◌==◌, is_some, Option-cases, Bool-cases, if_both, if_cases,
}
use powerman.CStr.{CStr}
use powerman.Hostlist.{Hostlist}
use powerman.Arglist.{arglist_unlink}
use powerman.Commands.{Com}
use powerman.Conf.{Conf}
use powerman.Client
use powerman.Client.{
  Output, Response, Command, Client, World, client_printf, find_client, set_client, abort,
}
use powerman.Client.Finish.Pending.{
  Pending, ClientPending, CmdPending, is_request, find-set_client_other, set_client-Pending,
  set_client-Pending_self, CmdPending-found,
}
use powerman.Device.{Device}
use powerman.Device.Enqueue.{Request, dev_check_actions, dev_enqueue_actions}
use powerman.Device.Enqueue.Counting.{debt, owed_by, dev_enqueue_actions_counts}
use powerman.Device.Enqueue.Clients.{dev_enqueue_actions-clients}
use powerman.Client.Input.{
  Line, toolong, busy, help, list_nodes, telemetry, exprange, quit, unknown, command, device,
  classify, strip_whitespace, command_hosts, create_command, reissue, Parsed, enqueue_command,
  finish_command, run_command, run_line, parse_input,
}
use powerman.Client.Input.Requests.{CommandFree, classify-CommandFree}

-- Each client waits for the callbacks that the queues owe it.
abbrev pub AllBalanced : List Device → World → Type 0
AllBalanced devs w = (i : ℕ) → Pending w i (owed_by i devs)

-- The client is written back.
abbrev store : Client → Parsed → World
store c p = record (p.2) { clients = set_client p.2.clients c.client_id p.1 }

-- A line that leaves the queues, the client's command and the list of clients alone.
abbrev Idle : List Device → World → Client → Parsed → Type 0
Idle devs w c p =
    ((i : ℕ) → owed_by i p.0 ≡ owed_by i devs)
    × (p.1.client_id ≡ c.client_id)
    × (p.1.cmd ≡ c.cmd)
    × (p.2.clients ≡ w.clients)

Idle-Balanced :
    (devs : List Device) (w : World) (c : Client) (p : Parsed)
    → find_client w.clients c.client_id ≡ some c
    → AllBalanced devs w
    → Idle devs w c p
    → AllBalanced p.0 (store c p)
Idle-Balanced devs w c p h b (same, id, cmd, clients) i =
    subst (λ cs. ClientPending (find_client (set_client cs c.client_id p.1) i) (owed_by i p.0))
      (sym clients)
      (set_client-Pending w c.client_id i (owed_by i p.0) c p.1 h id cmd
        (subst (Pending w i) (sym (same i)) (b i)))

-- The request that the client makes for a command.
abbrev pub request : Client → Command → Request
request c cmd = record {
  complete_fun = true;
  vpf_fun = c.telemetry;
  client_id = c.client_id;
  arglist = some cmd.arglist;
}

debt_none : (r : Request) (i n : ℕ) → n ≡ 0 → debt r i n ≡ 0
debt_none r i n h = ground arith

debt_self : (c : Client) (cmd : Command) (n : ℕ) → debt (request c cmd) c.client_id n ≡ n
debt_self c cmd n = ground arith

pub debt_other :
    (c : Client) (cmd : Command) (i n : ℕ) → c.client_id ≢ i → debt (request c cmd) i n ≡ 0
debt_other c cmd i n h = ground arith

-- The client takes a command that waits for the actions enqueued.
taken-Balanced :
    (devs devs' : List Device) (w w' : World) (c c' : Client) (cmd : Command) (n : ℕ)
    → find_client w.clients c.client_id ≡ some c
    → c.cmd ≡ none
    → AllBalanced devs w
    → ((i : ℕ) → owed_by i devs' ≡ owed_by i devs + debt (request c cmd) i n)
    → w'.clients ≡ w.clients
    → c'.client_id ≡ c.client_id
    → c'.cmd ≡ some (record cmd { pending = n })
    → 0 < n
    → is_request cmd.pm ≡ true
    → AllBalanced devs' (store c (devs', c', w'))
taken-Balanced devs devs' w w' c c' cmd n h free b counts clients id taken pos ok i =
    subst (λ cs. ClientPending (find_client (set_client cs c.client_id c') i) (owed_by i devs'))
      (sym clients)
      (elim (Bool-cases (c.client_id == i)) [
        | inl e ↦
            let same : c.client_id ≡ i = ground arith in
            let waits : CmdPending none (owed_by c.client_id devs) =
              subst (λ m. CmdPending m (owed_by c.client_id devs)) free
                (CmdPending-found w c.client_id _ c h (b c.client_id)) in
            let all : owed_by c.client_id devs' ≡ n =
              omega (arith, counts c.client_id, waits, debt_self c cmd n) in
            subst
              (λ j.
                ClientPending (find_client (set_client w.clients c.client_id c') j)
                  (owed_by j devs'))
              same
              (set_client-Pending_self w c.client_id (owed_by c.client_id devs') c c' h id (
                subst (λ m. CmdPending m (owed_by c.client_id devs')) (sym taken)
                  (sym all, subst (λ k. 0 < k) (sym all) pos, ok)))
        | inr e ↦
            let other : c.client_id ≢ i = ground arith in
            subst (λ o. ClientPending o (owed_by i devs'))
              (sym (find-set_client_other w.clients c.client_id i c' id other))
              (subst (Pending w i) (omega (arith, counts i, debt_other c cmd i n other)) (b i))
      ])

enqueue_command-Balanced :
    (hostlist : Hostlist) (devs : List Device) (w w' : World) (c : Client) (rs : List Response)
    (cmd : Command)
    → find_client w.clients c.client_id ≡ some c
    → c.cmd ≡ none
    → AllBalanced devs w
    → w'.clients ≡ w.clients
    → is_request cmd.pm ≡ true
    → let p = enqueue_command hostlist devs w' (client_printf c rs) cmd in
      AllBalanced p.0 (store c p)
unfolding enqueue_command client_printf
enqueue_command-Balanced hostlist devs w w' c rs cmd h free b clients ok =
    let r = request c cmd in
    let counts = λ (i : ℕ). dev_enqueue_actions_counts hostlist devs w' cmd.pm cmd.hl r i in
    let same = dev_enqueue_actions-clients hostlist devs w' cmd.pm cmd.hl r ∙ clients in
    let (devs', n, w'') = dev_enqueue_actions hostlist devs w' cmd.pm cmd.hl r in
    if_cases (λ (p : Parsed). AllBalanced p.0 (store c p)) (n == 0) _ _
      (λ z.
        let none' : n ≡ 0 = ground arith in
        Idle-Balanced devs w c
          (
            devs',
            client_printf (client_printf c rs) (Client.err_unimpl ∷ reissue c),
            record w'' { args = arglist_unlink w''.args cmd.arglist },
          )
          h b ((λ i. counts i ∙ omega (arith, debt_none r i n none')), refl, refl, same))
      (λ pos.
        taken-Balanced devs devs' w w'' c _ cmd n h free b counts same refl refl (ground arith) ok)

-- What _create_command makes, if it does: a command as asked, and no client is touched.
unfoldable pub Made : World → Com → Option Command × List Response × World → Type 0
Made w pm (none, rs, w') = w'.clients ≡ w.clients
Made w pm (some cmd, rs, w') = (w'.clients ≡ w.clients) × (cmd.pm ≡ pm)

pub create_command-Made :
    (hostlist : Hostlist) (conf : Conf) (devs : List Device) (w : World) (pm : Com)
    (arg1 : Option CStr)
    → Made w pm (create_command hostlist conf devs w pm arg1)
unfolding create_command Made
create_command-Made hostlist conf devs w pm arg1 =
    elim (Option-cases (command_hosts hostlist conf arg1).0) [
      | inl e ↦ rw (e, create_command) refl
      | inr (hl, e) ↦
          rw (e, create_command)
            (if_both (Made w pm) (not (dev_check_actions hostlist devs pm hl)) _ _ refl
              (refl, refl))
    ]

finish_command-Balanced :
    (hostlist : Hostlist) (devs : List Device) (w : World) (c : Client) (pm : Com)
    (made : Option Command) (rs : List Response) (w' : World)
    → Made w pm (made, rs, w')
    → find_client w.clients c.client_id ≡ some c
    → AllBalanced devs w
    → c.cmd ≡ none
    → is_request pm ≡ true
    → let p = finish_command hostlist devs w' c made rs in AllBalanced p.0 (store c p)
unfolding finish_command Made client_printf
finish_command-Balanced hostlist devs w c pm none rs w' made h b free ok =
    Idle-Balanced devs w c (devs, client_printf c (rs ++ reissue c), w') h b
      ((λ i. refl), refl, refl, made)
finish_command-Balanced hostlist devs w c pm (some cmd) rs w' made h b free ok =
    enqueue_command-Balanced hostlist devs w w' c rs cmd h free b made.0 (ap is_request made.1 ∙ ok)

run_command-Balanced :
    (hostlist : Hostlist) (conf : Conf) (devs : List Device) (w : World) (c : Client) (pm : Com)
    (arg1 : Option CStr)
    → find_client w.clients c.client_id ≡ some c
    → AllBalanced devs w
    → c.cmd ≡ none
    → is_request pm ≡ true
    → let p = run_command hostlist conf devs w c pm arg1 in AllBalanced p.0 (store c p)
unfolding run_command Made client_printf
run_command-Balanced hostlist conf devs w c pm arg1 h b free ok =
    let made = create_command-Made hostlist conf devs w pm arg1 in
    let r = create_command hostlist conf devs w pm arg1 in
    finish_command-Balanced hostlist devs w c pm r.0 r.1 r.2 made h b free ok

run_line-Balanced :
    (hostlist : Hostlist) (flush : Output → Output) (devs : List Device) (w : World) (c : Client)
    (line : Line)
    → find_client w.clients c.client_id ≡ some c
    → AllBalanced devs w
    → CommandFree c.cmd line
    → let p = run_line hostlist flush devs w c line in AllBalanced p.0 (store c p)
unfolding run_line client_printf CommandFree
run_line-Balanced hostlist flush devs w c (command pm arg) h b free =
    run_command-Balanced hostlist w.conf devs w c pm arg h b free.0 free.1
run_line-Balanced hostlist flush devs w c toolong h b free =
    Idle-Balanced devs w c (run_line hostlist flush devs w c toolong) h b
      ((λ i. refl), refl, refl, refl)
run_line-Balanced hostlist flush devs w c busy h b free =
    Idle-Balanced devs w c (run_line hostlist flush devs w c busy) h b
      ((λ i. refl), refl, refl, refl)
run_line-Balanced hostlist flush devs w c help h b free =
    Idle-Balanced devs w c (run_line hostlist flush devs w c help) h b
      ((λ i. refl), refl, refl, refl)
run_line-Balanced hostlist flush devs w c list_nodes h b free =
    Idle-Balanced devs w c (run_line hostlist flush devs w c list_nodes) h b
      ((λ i. refl), refl, refl, refl)
run_line-Balanced hostlist flush devs w c telemetry h b free =
    Idle-Balanced devs w c (run_line hostlist flush devs w c telemetry) h b
      ((λ i. refl), refl, refl, refl)
run_line-Balanced hostlist flush devs w c exprange h b free =
    Idle-Balanced devs w c (run_line hostlist flush devs w c exprange) h b
      ((λ i. refl), refl, refl, refl)
run_line-Balanced hostlist flush devs w c quit h b free =
    Idle-Balanced devs w c (run_line hostlist flush devs w c quit) h b
      ((λ i. refl), refl, refl, refl)
run_line-Balanced hostlist flush devs w c unknown h b free =
    Idle-Balanced devs w c (run_line hostlist flush devs w c unknown) h b
      ((λ i. refl), refl, refl, refl)
run_line-Balanced hostlist flush devs w c (device arg) h b free =
    Idle-Balanced devs w c (run_line hostlist flush devs w c (device arg)) h b
      ((λ i. refl), refl, refl, refl)

-- _parse_input keeps the balance of callbacks over all devices: if each client waits for as many
-- actions as the queues have callbacks for it, then it does so after a line of input of one of them,
-- whatever the line says; so a client that gets a command waits for exactly the actions that its
-- command enqueued, at least one, and a client that waits already gets no second command.
pub parse_input_balanced :
    (hostlist : Hostlist) (flush : Output → Output) (devs : List Device) (w : World) (c : Client)
    (input : CStr)
    → find_client w.clients c.client_id ≡ some c
    → AllBalanced devs w
    → AllBalanced
        (parse_input hostlist flush devs w c input).0
        (parse_input hostlist flush devs w c input).1
unfolding parse_input
parse_input_balanced hostlist flush devs w c input h b =
    run_line-Balanced hostlist flush devs w c (classify (is_some c.cmd) (strip_whitespace input)) h
      b (classify-CommandFree c (strip_whitespace input))
