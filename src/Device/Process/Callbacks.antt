-- ===== src/Device/Process/Callbacks.antt =====
-- What the clients wait for, against what the queue of a device owes them.
use mathlib.Core.Path.{subst}
use powerman.Base.{
  ℕ, suc, ◌+◌, ◌≡◌, ◌≢◌, sym, inl, inr, Bool, true, false, ◌&&◌, List, [], ◌∷◌, ◌++◌, arith,
  if◌then◌else◌, ◌==◌, count, Bool-cases, if_cases,
}
use powerman.CStr.{CStr}
use powerman.Client.{World}
use powerman.Client.Finish.{ActError, act_finish}
use powerman.Client.Finish.Pending.{Pending, ClientPending, act_finish-Finished}
use powerman.Device.{Action, Env}
use powerman.Device.Enqueue.{destroy_action, unlink_arglist}
use powerman.Device.Statement.Clients.{same_clients}
use powerman.Device.Process.{complete_action, completion_text, abort_actions}

-- Whether an action will call back the client `i`.
abbrev pub owes : ℕ → Action → Bool
owes i act = act.complete_fun && act.client_id == i

-- How many callbacks a queue owes the client `i`.
abbrev pub owed : ℕ → List Action → ℕ
owed i acts = count (owes i) acts

-- Each client waits for the callbacks of the queue, and `m` of others.
abbrev pub Balanced : (ℕ → ℕ) → List Action → World → Type 0
Balanced m acts w = (i : ℕ) → Pending w i (owed i acts + m i)

pub destroy_action-clients : (w : World) (act : Action) → (destroy_action w act).clients ≡ w.clients
unfolding destroy_action unlink_arglist
destroy_action-clients w act = ground arith

pub Balanced-clients :
    (m : ℕ → ℕ) (acts : List Action) (w w' : World)
    → w'.clients ≡ w.clients
    → Balanced m acts w
    → Balanced m acts w'
Balanced-clients m acts w w' e b i = same_clients w w' e i _ (b i)

owed-cons_silent :
    (i : ℕ) (act : Action) (acts : List Action)
    → act.complete_fun ≡ false
    → owed i (act ∷ acts) ≡ owed i acts
owed-cons_silent i act acts h = ground arith

owed-cons_other :
    (i : ℕ) (act : Action) (acts : List Action)
    → act.client_id ≢ i
    → owed i (act ∷ acts) ≡ owed i acts
owed-cons_other i act acts h = ground arith

owed-cons_self :
    (act : Action) (acts : List Action)
    → act.complete_fun ≡ true
    → owed act.client_id (act ∷ acts) ≡ suc (owed act.client_id acts)
owed-cons_self act acts h = ground arith

-- The callback of the first action pays what it owes.
act_finish-Balanced :
    (env : Env) (m : ℕ → ℕ) (act : Action) (acts : List Action) (w : World) (err : ActError)
    (str : CStr)
    → act.complete_fun ≡ true
    → Balanced m (act ∷ acts) w
    → Balanced m acts (act_finish env.hostlist w act.client_id err str)
act_finish-Balanced env m act acts w err str h b i =
    let c = act.client_id in
    let p : Pending w c (suc (owed c acts + m c)) =
      subst (Pending w c) (omega (arith, owed-cons_self act acts h)) (b c) in
    let f = act_finish-Finished env.hostlist w c (owed c acts + m c) err str p in
    elim (Bool-cases (c == i)) [
      | inl e ↦
          let same : c ≡ i = ground arith in
          subst (λ j. Pending (act_finish env.hostlist w c err str) j (owed j acts + m j)) same
            f.pending
      | inr e ↦
          let ne : c ≢ i = ground arith in
          elim (f.others i) [
            | inl same ↦ absurd (ne same)
            | inr e' ↦
                subst (λ o. ClientPending o (owed i acts + m i)) (sym e')
                  (subst (λ k. Pending w i (k + m i)) (owed-cons_other i act acts ne) (b i))
          ]
    ]

pub complete_action-Balanced :
    (env : Env) (name : CStr) (m : ℕ → ℕ) (act : Action) (acts : List Action) (w : World)
    → Balanced m (act ∷ acts) w
    → Balanced m acts (complete_action env name act w)
unfolding complete_action
complete_action-Balanced env name m act acts w b =
    let str = name ++ completion_text act.errnum in
    let w' = act_finish env.hostlist w act.client_id act.errnum str in
    Balanced-clients m acts (if act.complete_fun then w' else w) (complete_action env name act w)
      (destroy_action-clients (if act.complete_fun then w' else w) act)
      (if_cases (Balanced m acts) act.complete_fun w' w
        (λ h. act_finish-Balanced env m act acts w act.errnum str h b)
        (λ h i. subst (λ k. Pending w i (k + m i)) (owed-cons_silent i act acts h) (b i)))

pub abort_actions-Balanced :
    (env : Env) (name : CStr) (err : ActError) (m : ℕ → ℕ) (acts : List Action) (w : World)
    → Balanced m acts w
    → Balanced m [] (abort_actions env name err acts w)
unfolding abort_actions
abort_actions-Balanced env name err m [] w b = b
abort_actions-Balanced env name err m (act ∷ acts) w b =
    abort_actions-Balanced env name err m acts _
      (complete_action-Balanced env name m (record act { errnum = err }) acts w b)
