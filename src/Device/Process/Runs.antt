-- ===== src/Device/Process/Runs.antt =====
-- The rounds of the two loops of _process_action, one at a time.
use powerman.Base.{ℕ, zero, suc, ◌≡◌, refl, true, false, List, [], ◌∷◌, Option, none, some, arith}
use powerman.Client.{World, abort}
use powerman.Device.{Stmt, ExecCtx, Action, Device, Env}
use powerman.Device.Statement.{Exec, process_stmt}
use powerman.Device.Process.{Round, run_stmts, after_stmts, stamp, round, process_action, run_round}

-- The statement that a round of the inner loop runs, with nothing pushed before.
abbrev pub ran_stmt : Env → Exec → Stmt → Exec
ran_stmt env x s = process_stmt env (record x { push = none }) s

abbrev pub stuck : Exec → Exec
stuck x = record x { w = abort x.w; finished = false }

pub run_stmts-stuck :
    (fuel : ℕ) (env : Env) (x : Exec) (outer : List ExecCtx)
    → x.e.cur ≡ none
    → run_stmts (suc fuel) env x outer ≡ some (stuck x, outer)
unfolding run_stmts
run_stmts-stuck fuel env x outer c = ground arith

pub run_stmts-stop :
    (fuel : ℕ) (env : Env) (x : Exec) (outer : List ExecCtx) (s : Stmt)
    → x.e.cur ≡ some s
    → (ran_stmt env x s).push ≡ none
    → run_stmts (suc fuel) env x outer ≡ some (ran_stmt env x s, outer)
unfolding run_stmts
run_stmts-stop fuel env x outer s c h = ground arith

pub run_stmts-push :
    (fuel : ℕ) (env : Env) (x : Exec) (outer : List ExecCtx) (s : Stmt) (new : ExecCtx)
    → x.e.cur ≡ some s
    → (ran_stmt env x s).push ≡ some new
    → run_stmts (suc fuel) env x outer
      ≡ run_stmts fuel env (record (ran_stmt env x s) { e = new }) ((ran_stmt env x s).e ∷ outer)
unfolding run_stmts
run_stmts-push fuel env x outer s new c h = ground arith

pub process_action-none :
    (fuel depth : ℕ) (env : Env) (dev : Device) (w : World) (t : ℕ)
    → dev.acts ≡ []
    → process_action (suc fuel) depth env dev w t ≡ some (dev, w, t)
unfolding process_action
process_action-none fuel depth env dev w t h = ground arith

-- The result of the round, where the loop goes on or ends.
abbrev pub after_round : ℕ → ℕ → Env → Round → Option (Device × World × ℕ)
after_round fuel depth env r = elim r.go_on [
  | true ↦ process_action fuel depth env r.dev r.w r.timeout
  | false ↦ some (r.dev, r.w, r.timeout)
]

pub process_action-round :
    (fuel depth : ℕ) (env : Env) (dev : Device) (w : World) (t : ℕ) (act : Action)
    (rest : List Action) (r : Round)
    → dev.acts ≡ act ∷ rest
    → round depth env dev (stamp env act w).0 rest (stamp env act w).0.exec (stamp env act w).1 t
      ≡ some r
    → process_action (suc fuel) depth env dev w t ≡ after_round fuel depth env r
unfolding process_action
process_action-round fuel depth env dev w t act rest r h k = ground arith

pub stamp-exec : (env : Env) (act : Action) (w : World) → (stamp env act w).0.exec ≡ act.exec
unfolding stamp
stamp-exec env act w = ground arith

pub run_stmts-zero :
    (env : Env) (x : Exec) (outer : List ExecCtx) → run_stmts zero env x outer ≡ none
unfolding run_stmts
run_stmts-zero env x outer = refl

pub run_round-none :
    (depth : ℕ) (env : Env) (rest : List Action) (left : ℕ) (x : Exec) (outer : List ExecCtx)
    → run_stmts depth env x outer ≡ none
    → run_round depth env rest left x outer ≡ none
unfolding run_round
run_round-none depth env rest left x outer h = ground arith

pub run_round-some :
    (depth : ℕ) (env : Env) (rest : List Action) (left : ℕ) (x : Exec) (outer : List ExecCtx)
    (r : Exec × List ExecCtx)
    → run_stmts depth env x outer ≡ some r
    → run_round depth env rest left x outer ≡ some (after_stmts env rest left r.0 r.1)
unfolding run_round
run_round-some depth env rest left x outer r h = rw (h, run_round)

pub process_action-zero :
    (depth : ℕ) (env : Env) (dev : Device) (w : World) (t : ℕ)
    → process_action zero depth env dev w t ≡ none
unfolding process_action
process_action-zero depth env dev w t = refl

-- A round that ran out of fuel.
pub process_action-out :
    (fuel depth : ℕ) (env : Env) (dev : Device) (w : World) (t : ℕ) (act : Action)
    (rest : List Action)
    → dev.acts ≡ act ∷ rest
    → round depth env dev (stamp env act w).0 rest (stamp env act w).0.exec (stamp env act w).1 t
      ≡ none
    → process_action (suc fuel) depth env dev w t ≡ none
unfolding process_action
process_action-out fuel depth env dev w t act rest h k = ground arith
