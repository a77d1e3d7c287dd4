-- ===== src/Client/Finish/Pending.antt =====
-- The count of pending actions of a command, across the callbacks of the device module.
use mathlib.Core.Path.{subst}
use powerman.Base.{
  ℕ, suc, ◌-◌, ◌<◌, ◌≡◌, refl, sym, ap, ◌∙◌, ◌≢◌, ◌⊎◌, inl, inr, Bool, true, false, List, [], ◌∷◌,
  ◌++◌, Option, none, some, arith, if◌then◌else◌, ◌==◌, Option-cases, Bool-cases, if_cases,
}
use powerman.CStr.{CStr}
use powerman.Hostlist.{Hostlist}
use powerman.Commands
use powerman.Commands.{Com}
use powerman.Arglist.{Arg}
use powerman.Client.{prompt, Command, Client, World, client_printf, find_client, set_client}
use powerman.Client.Finish.{
  ActError, is_success, telemetry_printf, final_response, complete_command, finish_one, act_finish,
  note_error, command_args,
}

-- The commands that _parse_input creates.
abbrev pub is_request : Com → Bool
is_request Commands.pm_status_plugs = true
is_request Commands.pm_status_beacon = true
is_request Commands.pm_status_temp = true
is_request Commands.pm_power_on = true
is_request Commands.pm_power_off = true
is_request Commands.pm_beacon_on = true
is_request Commands.pm_beacon_off = true
is_request Commands.pm_power_cycle = true
is_request Commands.pm_reset = true
is_request _ = false

-- A client waits for `k` actions: without a command for none, with a command for one or more.
abbrev pub CmdPending : Option Command → ℕ → Type 0
CmdPending none k = k ≡ 0
CmdPending (some cmd) k = (cmd.pending ≡ k) × (0 < k) × (is_request cmd.pm ≡ true)

abbrev pub ClientPending : Option Client → ℕ → Type 0
ClientPending none k = Unit
ClientPending (some c) k = CmdPending c.cmd k

-- If the client `i` is there still, it waits for `k` actions.
abbrev pub Pending : World → ℕ → ℕ → Type 0
Pending w i k = ClientPending (find_client w.clients i) k

pub find_client-id :
    (cs : List Client) (i : ℕ) (c : Client) → find_client cs i ≡ some c → c.client_id ≡ i
unfolding find_client
find_client-id [] i c h = cc
find_client-id (d ∷ cs) i c h = ground (arith, find_client-id cs i c)

pub find-set_client_self :
    (cs : List Client) (i : ℕ) (c c' : Client)
    → c'.client_id ≡ i
    → find_client cs i ≡ some c
    → find_client (set_client cs i c') i ≡ some c'
unfolding find_client set_client
find-set_client_self [] i c c' e h = cc
find-set_client_self (d ∷ cs) i c c' e h = ground (arith, find-set_client_self cs i c c' e)

pub find-set_client_other :
    (cs : List Client) (i j : ℕ) (c' : Client)
    → c'.client_id ≡ i
    → i ≢ j
    → find_client (set_client cs i c') j ≡ find_client cs j
unfolding find_client set_client
find-set_client_other [] i j c' e h = refl
find-set_client_other (d ∷ cs) i j c' e h = ground (arith, find-set_client_other cs i j c' e h)

pub CmdPending-found :
    (w : World) (i k : ℕ) (c : Client)
    → find_client w.clients i ≡ some c
    → Pending w i k
    → CmdPending c.cmd k
CmdPending-found w i k c h p = subst (λ o. ClientPending o k) h p

pub set_client-Pending_self :
    (w : World) (i k : ℕ) (c c' : Client)
    → find_client w.clients i ≡ some c
    → c'.client_id ≡ i
    → CmdPending c'.cmd k
    → ClientPending (find_client (set_client w.clients i c') i) k
set_client-Pending_self w i k c c' h e p =
    subst (λ o. ClientPending o k) (sym (find-set_client_self w.clients i c c' e h)) p

-- A write to a client that leaves its command alone.
pub set_client-Pending :
    (w : World) (i j k : ℕ) (c c' : Client)
    → find_client w.clients i ≡ some c
    → c'.client_id ≡ i
    → c'.cmd ≡ c.cmd
    → Pending w j k
    → ClientPending (find_client (set_client w.clients i c') j) k
set_client-Pending w i j k c c' h e same p = elim (Bool-cases (i == j)) [
  | inl b ↦
      let ij : i ≡ j = ground arith in
      let p' = subst (λ x. Pending w x k) (sym ij) p in
      subst (λ x. ClientPending (find_client (set_client w.clients i c') x) k) ij
        (set_client-Pending_self w i k c c' h e
          (subst (λ m. CmdPending m k) (sym same) (CmdPending-found w i k c h p')))
  | inr b ↦
      subst (λ o. ClientPending o k) (sym (find-set_client_other w.clients i j c' e (ground arith)))
        p
]

pub telemetry_printf-Pending :
    (w : World) (client_id : ℕ) (str : CStr) (j k : ℕ)
    → Pending w j k
    → Pending (telemetry_printf w client_id str) j k
unfolding telemetry_printf client_printf
telemetry_printf-Pending w client_id str j k p =
    elim (Option-cases (find_client w.clients client_id)) [
      | inl e ↦ rw (e, telemetry_printf) p
      | inr (c, e) ↦
          rw (e, telemetry_printf)
            (set_client-Pending w client_id j k c _ e (find_client-id w.clients client_id c e) refl
              p)
    ]

-- What a callback for the client `i` does to the world.
pub record Finished (w : World) (i k : ℕ) (w' : World) : Type 0 where
  pub same_aborted : w'.aborted ≡ w.aborted
  pub pending : Pending w' i k
  pub others : (j : ℕ) → (i ≡ j) ⊎ (find_client w'.clients j ≡ find_client w.clients j)

final_response_ok :
    (hl : Hostlist) (x : Bool) (args : List Arg) (pm : Com) (e : Bool)
    → is_request pm ≡ true
    → (final_response hl x args pm e).1 ≡ false
unfolding final_response
final_response_ok hl x args pm e h = ground arith

-- Writing one client back.
abbrev Wrote : World → ℕ → Client → World → Type 0
Wrote w i c' w' = (w'.clients ≡ set_client w.clients i c') × (w'.aborted ≡ w.aborted)

Wrote-Finished :
    (w : World) (i k : ℕ) (c c' : Client) (w' : World)
    → find_client w.clients i ≡ some c
    → c'.client_id ≡ c.client_id
    → CmdPending c'.cmd k
    → Wrote w c.client_id c' w'
    → Finished w i k w'
Wrote-Finished w i k c c' w' h e' p q' =
    let id = find_client-id w.clients i c h in
    let q = subst (λ n. Wrote w n c' w') id q' in
    let e = e' ∙ id in
    record {
      same_aborted = q.1;
      pending =
          subst (λ cs. ClientPending (find_client cs i) k) (sym q.0)
            (set_client-Pending_self w i k c c' h e p);
      others = λ j. elim (Bool-cases (i == j)) [
        | inl b ↦ inl (ground arith)
        | inr b ↦ inr (
            ap (λ cs. find_client cs j) q.0
            ∙ find-set_client_other w.clients i j c' e (ground arith))
      ];
    }

complete_command-Wrote :
    (hl : Hostlist) (w : World) (c : Client) (cmd : Command)
    → is_request cmd.pm ≡ true
    → (c' : Client) × (c'.client_id ≡ c.client_id)
      × (c'.cmd ≡ none)
      × Wrote w c.client_id c' (complete_command hl w c cmd)
unfolding complete_command client_printf
complete_command-Wrote hl w c cmd h =
    let r = final_response hl c.exprange (command_args w.args cmd) cmd.pm cmd.error in
    let good : r.1 ≡ false =
      final_response_ok hl c.exprange (command_args w.args cmd) cmd.pm cmd.error h in
    (
      record (client_printf c (r.0 ++ prompt ∷ [])) { cmd = none },
      refl,
      refl,
      (rw (good), rw (good)),
    )

finish_one-Finished :
    (hl : Hostlist) (w : World) (i k : ℕ) (c : Client) (cmd : Command) (err : ActError) (str : CStr)
    → find_client w.clients i ≡ some c
    → cmd.pending ≡ suc k
    → is_request cmd.pm ≡ true
    → Finished w i k (finish_one hl w c cmd err str)
unfolding finish_one client_printf
finish_one-Finished hl w i k c cmd err str h p r =
    let cmd' = record cmd {
      error = if is_success err then cmd.error else true;
      pending = cmd.pending - 1;
    } in
    let c' = record (client_printf c (note_error err str)) { cmd = some cmd' } in
    if_cases (Finished w i k) (cmd.pending == 1) (complete_command hl w c' cmd') _
      (λ last.
        let (d, e, gone, wrote) = complete_command-Wrote hl w c' cmd' r in
        Wrote-Finished w i k c d _ h e
          (subst (λ m. CmdPending m k) (sym gone) (ground (arith, last, p))) wrote)
      (λ more.
        Wrote-Finished w i k c c' _ h refl (ground (arith, more, p), ground (arith, more, p), r)
          (refl, refl))

act_finish-gone :
    (hl : Hostlist) (w : World) (i : ℕ) (err : ActError) (str : CStr)
    → find_client w.clients i ≡ none
    → act_finish hl w i err str ≡ w
unfolding act_finish
act_finish-gone hl w i err str e = ground arith

act_finish-found :
    (hl : Hostlist) (w : World) (i : ℕ) (err : ActError) (str : CStr) (c : Client) (cmd : Command)
    → find_client w.clients i ≡ some c
    → c.cmd ≡ some cmd
    → act_finish hl w i err str ≡ finish_one hl w c cmd err str
unfolding act_finish
act_finish-found hl w i err str c cmd e n = ground arith

-- A callback for a client that waits for one action or more: no assertion fails, the client waits
-- for one action less, and it has lost its command exactly if that was the last; no other client
-- changes. The callback of a client that is gone changes nothing.
pub act_finish-Finished :
    (hl : Hostlist) (w : World) (i k : ℕ) (err : ActError) (str : CStr)
    → Pending w i (suc k)
    → Finished w i k (act_finish hl w i err str)
act_finish-Finished hl w i k err str p = elim (Option-cases (find_client w.clients i)) [
  | inl e ↦ subst (Finished w i k) (sym (act_finish-gone hl w i err str e)) (record {
    same_aborted = refl;
    pending = subst (λ o. ClientPending o k) (sym e) tt;
    others = λ j. inr refl;
  })
  | inr (c, e) ↦
      let waits = CmdPending-found w i (suc k) c e p in
      elim (Option-cases c.cmd) [
        | inl n ↦ absurd (omega (arith, subst (λ m. CmdPending m (suc k)) n waits))
        | inr (cmd, n) ↦
            let q = subst (λ m. CmdPending m (suc k)) n waits in
            subst (Finished w i k) (sym (act_finish-found hl w i err str c cmd e n))
              (finish_one-Finished hl w i k c cmd err str e q.0 q.2)
      ]
]
