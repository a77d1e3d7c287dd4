-- ===== src/Device/Process/Weight.antt =====
-- The work that is left in a queue of actions: what each round of _process_action makes smaller.
use powerman.Base.{
  ℕ, ◌+◌, ◌*◌, ◌≤◌, ◌≡◌, refl, Bool, false, List, [], ◌∷◌, Option, none, some, arith, if◌then◌else◌,
  length,
}
use powerman.Pluglist.{Plug}
use powerman.Device.{
  Stmt, Stmts, send, expect, setplugstate, delay, foreachplug, foreachnode, ifoff, ifon, nil, cons,
  ExecCtx, Action,
}
use powerman.Device.Enqueue.{create_exec_ctx}

-- The rounds that a statement takes on a device with `n` plugs, each block it enters included.
unfoldable mutual
  pub stmt_weight : ℕ → Stmt → ℕ
  stmt_weight n (send fmt) = 1
  stmt_weight n (expect re) = 1
  stmt_weight n (setplugstate a b c d) = 1
  stmt_weight n (delay tv) = 1
  stmt_weight n (foreachplug stmts) = 1 + n * (1 + stmts_weight n stmts)
  stmt_weight n (foreachnode stmts) = 1 + n * (1 + stmts_weight n stmts)
  stmt_weight n (ifoff stmts) = 2 + stmts_weight n stmts
  stmt_weight n (ifon stmts) = 2 + stmts_weight n stmts

  pub stmts_weight : ℕ → Stmts → ℕ
  stmts_weight n nil = 0
  stmts_weight n (cons s ss) = stmt_weight n s + stmts_weight n ss

pub stmts_weight-cons :
    (n : ℕ) (s : Stmt) (ss : Stmts)
    → stmts_weight n (cons s ss) ≡ stmt_weight n s + stmts_weight n ss
unfolding stmts_weight
stmts_weight-cons n s ss = refl

-- How many plugs an iterator has to visit.
abbrev pub to_visit : ℕ → Option (List Plug) → ℕ
to_visit n none = n
to_visit n (some ps) = length ps

-- What is left of a current statement.
unfoldable pub cur_weight : ℕ → Option (List Plug) → Bool → Stmt → ℕ
cur_weight n itr processing (foreachplug stmts) = 1 + to_visit n itr * (1 + stmts_weight n stmts)
cur_weight n itr processing (foreachnode stmts) = 1 + to_visit n itr * (1 + stmts_weight n stmts)
cur_weight n itr processing (ifoff stmts) = if processing then 1 else 2 + stmts_weight n stmts
cur_weight n itr processing (ifon stmts) = if processing then 1 else 2 + stmts_weight n stmts
cur_weight n itr processing _ = 1

unfoldable pub opt_weight : ℕ → Option (List Plug) → Bool → Option Stmt → ℕ
unfolding cur_weight
opt_weight n itr processing none = 0
opt_weight n itr processing (some s) = cur_weight n itr processing s

unfoldable pub ctx_weight : ℕ → ExecCtx → ℕ
unfolding opt_weight
ctx_weight n e = opt_weight n e.plugitr e.processing e.cur + stmts_weight n e.stmtitr

unfoldable pub stack_weight : ℕ → List ExecCtx → ℕ
stack_weight n [] = 0
stack_weight n (e ∷ es) = ctx_weight n e + stack_weight n es

unfoldable pub queue_weight : ℕ → List Action → ℕ
unfolding stack_weight
queue_weight n [] = 0
queue_weight n (a ∷ acts) = 1 + stack_weight n a.exec + queue_weight n acts

-- An iterator over the plugs of a device has at most as many plugs left as the device.
abbrev pub Within : ℕ → ExecCtx → Type 0
Within n e = to_visit n e.plugitr ≤ n

pub cur_weight_pos :
    (n : ℕ) (itr : Option (List Plug)) (p : Bool) (s : Stmt) → 1 ≤ cur_weight n itr p s
unfolding cur_weight
cur_weight_pos n itr p (send _) = omega arith
cur_weight_pos n itr p (ifoff stmts) = ground arith
cur_weight_pos n itr p (ifon stmts) = ground arith
cur_weight_pos n itr p _ = omega arith

pub cur_weight_le :
    (n : ℕ) (itr : Option (List Plug)) (p : Bool) (s : Stmt)
    → to_visit n itr ≤ n
    → cur_weight n itr p s ≤ stmt_weight n s
unfolding cur_weight stmt_weight
cur_weight_le n itr p (send _) h = omega arith
cur_weight_le n itr p (foreachplug stmts) h = grind arith
cur_weight_le n itr p (foreachnode stmts) h = grind arith
cur_weight_le n itr p (ifoff stmts) h = ground arith
cur_weight_le n itr p (ifon stmts) h = ground arith
cur_weight_le n itr p _ h = omega arith

cur_weight_fresh : (n : ℕ) (s : Stmt) → cur_weight n none false s ≡ stmt_weight n s
unfolding cur_weight stmt_weight
cur_weight_fresh n (send _) = refl
cur_weight_fresh n _ = refl

pub ctx_weight-create :
    (n : ℕ) (stmts : Stmts) (plugs : Option (List Plug))
    → ctx_weight n (create_exec_ctx stmts plugs) ≡ stmts_weight n stmts
unfolding ctx_weight create_exec_ctx stmts_weight
ctx_weight-create n nil plugs = omega arith
ctx_weight-create n (cons s ss) plugs = omega (arith, cur_weight_fresh n s)
