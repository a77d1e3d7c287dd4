-- ===== src/Client/Poll/Input.antt =====
-- A line of input leaves the client's id and its input buffer alone, and changes no other client, nor
-- the counter of ids, nor what the queues owe others.
use powerman.Base.{
  ℕ, ◌≢◌, inl, inr, arith, not, Option-cases, ◌≡◌, refl, ap, ◌∙◌, List, Option, none, some, ◌==◌,
  if_both, is_some,
}
use powerman.CStr.{CStr}
use powerman.Conf.{Conf}
use powerman.Hostlist.{Hostlist}
use powerman.Commands.{Com}
use powerman.Device.{Device}
use powerman.Device.Enqueue.{dev_enqueue_actions}
use powerman.Device.Enqueue.Clients.{dev_enqueue_actions-clients, dev_enqueue_actions-seq}
use powerman.Client.{Output, Response, Command, Client, World, client_printf, set_client}
use powerman.Device.Enqueue.{dev_check_actions}
use powerman.Client.Input.{
  command_hosts, Line, command, Parsed, enqueue_command, finish_command, create_command,
  run_command, run_line, classify, strip_whitespace, parse_input,
}
use powerman.Client.Input.Balance.{request, debt_other, Made, create_command-Made}
use powerman.Device.Enqueue.Counting.{owed_by, dev_enqueue_actions_counts}

abbrev Kept : List Device → World → Client → Parsed → Type 0
Kept devs w c p =
    (p.1.client_id ≡ c.client_id)
    × (p.1.from ≡ c.from)
    × (p.2.clients ≡ w.clients)
    × (p.2.cli_id_seq ≡ w.cli_id_seq)
    × ((i : ℕ) → c.client_id ≢ i → owed_by i p.0 ≡ owed_by i devs)

enqueue_command-Kept :
    (hostlist : Hostlist) (devs : List Device) (w w' : World) (c : Client) (rs : List Response)
    (cmd : Command)
    → w'.clients ≡ w.clients
    → w'.cli_id_seq ≡ w.cli_id_seq
    → Kept devs w c (enqueue_command hostlist devs w' (client_printf c rs) cmd)
unfolding enqueue_command client_printf
enqueue_command-Kept hostlist devs w w' c rs cmd same seq =
    let r = request c cmd in
    let n = (dev_enqueue_actions hostlist devs w' cmd.pm cmd.hl r).1 in
    let same' = dev_enqueue_actions-clients hostlist devs w' cmd.pm cmd.hl r ∙ same in
    let seq' = dev_enqueue_actions-seq hostlist devs w' cmd.pm cmd.hl r ∙ seq in
    let devs' = (dev_enqueue_actions hostlist devs w' cmd.pm cmd.hl r).0 in
    let counts = dev_enqueue_actions_counts hostlist devs w' cmd.pm cmd.hl r in
    let others : (i : ℕ) → c.client_id ≢ i → owed_by i devs' ≡ owed_by i devs =
      λ i d. omega (arith, counts i, debt_other c cmd i n d) in
    if_both (Kept devs w c) (n == 0) _ _ (refl, refl, same', seq', others)
      (refl, refl, same', seq', others)

create_command-seq :
    (hostlist : Hostlist) (conf : Conf) (devs : List Device) (w : World) (pm : Com)
    (arg1 : Option CStr)
    → (create_command hostlist conf devs w pm arg1).2.cli_id_seq ≡ w.cli_id_seq
unfolding create_command
create_command-seq hostlist conf devs w pm arg1 =
    elim (Option-cases (command_hosts hostlist conf arg1).0) [
      | inl e ↦ rw (e, create_command) refl
      | inr (hl, e) ↦
          rw (e, create_command)
            (if_both (λ (r : Option Command × List Response × World). r.2.cli_id_seq ≡ w.cli_id_seq)
              (not (dev_check_actions hostlist devs pm hl)) _ _ refl refl)
    ]

finish_command-Kept :
    (hostlist : Hostlist) (devs : List Device) (w : World) (c : Client) (pm : Com)
    (made : Option Command) (rs : List Response) (w' : World)
    → Made w pm (made, rs, w')
    → w'.cli_id_seq ≡ w.cli_id_seq
    → Kept devs w c (finish_command hostlist devs w' c made rs)
unfolding finish_command Made client_printf
finish_command-Kept hostlist devs w c pm none rs w' made seq =
    (refl, refl, made, seq, (λ i d. refl))
finish_command-Kept hostlist devs w c pm (some cmd) rs w' made seq =
    enqueue_command-Kept hostlist devs w w' c rs cmd made.0 seq

run_line-Kept :
    (hostlist : Hostlist) (flush : Output → Output) (devs : List Device) (w : World) (c : Client)
    (line : Line)
    → Kept devs w c (run_line hostlist flush devs w c line)
unfolding run_line run_command client_printf
run_line-Kept hostlist flush devs w c (command pm arg) =
    let r = create_command hostlist w.conf devs w pm arg in
    finish_command-Kept hostlist devs w c pm r.0 r.1 r.2
      (create_command-Made hostlist w.conf devs w pm arg)
      (create_command-seq hostlist w.conf devs w pm arg)
run_line-Kept hostlist flush devs w c _ = (refl, refl, refl, refl, (λ i d. refl))

-- The client as parse_input writes it back, and what is left alone.
abbrev pub Rewritten : List Device → World → Client → List Device × World → Type 0
Rewritten devs w c r =
    (c' : Client) × (r.1.clients ≡ set_client w.clients c.client_id c')
    × (c'.client_id ≡ c.client_id)
    × (c'.from ≡ c.from)
    × (r.1.cli_id_seq ≡ w.cli_id_seq)
    × ((i : ℕ) → c.client_id ≢ i → owed_by i r.0 ≡ owed_by i devs)

pub parse_input-Rewritten :
    (hostlist : Hostlist) (flush : Output → Output) (devs : List Device) (w : World) (c : Client)
    (input : CStr)
    → Rewritten devs w c (parse_input hostlist flush devs w c input)
unfolding parse_input
parse_input-Rewritten hostlist flush devs w c input =
    let line = classify (is_some c.cmd) (strip_whitespace input) in
    let (id, from, same, seq, others) = run_line-Kept hostlist flush devs w c line in
    (
      (run_line hostlist flush devs w c line).1,
      ap (λ cs. set_client cs c.client_id (run_line hostlist flush devs w c line).1) same,
      id,
      from,
      seq,
      others,
    )
