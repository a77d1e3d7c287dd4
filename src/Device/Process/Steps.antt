-- ===== src/Device/Process/Steps.antt =====
-- What a statement, and a run of statements, leave of the work of a queue.
use mathlib.Core.Path.{subst}
use powerman.Base.{
  ℕ, if_cases, ◌+◌, ◌*◌, ◌<◌, ◌≡◌, refl, sym, ap, ◌∙◌, Bool, true, false, List, [], ◌∷◌, Option,
  none, some, arith, if◌then◌else◌, length, All,
}
use powerman.CStr.{CStr}
use powerman.Pluglist.{Plug}
use powerman.Device.{
  Interp, Stmt, Stmts, send, expect, setplugstate, delay, foreachplug, foreachnode, ifoff, ifon,
  ExecCtx, Env,
}
use powerman.Device.Enqueue.{create_exec_ctx}
use powerman.Device.Statement.{
  Exec, next_plug, next_node, iterator, process_foreach, process_ifonoff, if_first, Branch, enter,
  skip, fail, process_stmt, process_expect, process_send, process_setplugstate, process_delay,
  start_send, start_delay, write_send, one_plug, check_arglist, first_node,
}
use powerman.Client.{World}
use powerman.Device.Process.Weight.{
  stmts_weight, to_visit, cur_weight, ctx_weight, stack_weight, Within, cur_weight_pos,
  ctx_weight-create,
}

-- The statement changed neither the plugs nor the iterators, and pushed nothing.
abbrev Quiet : Exec → Exec → Type 0
Quiet x y =
    (y.dev.plugs ≡ x.dev.plugs)
    × (y.e.stmtitr ≡ x.e.stmtitr)
    × (y.e.plugitr ≡ x.e.plugitr)
    × (y.push ≡ x.push)

expect-Quiet : (env : Env) (x : Exec) (re : CStr) → Quiet x (process_expect env x re)
unfolding process_expect
expect-Quiet env x re = (refl, refl, refl, refl)

setplugstate-Quiet :
    (env : Env) (x : Exec) (a : Option CStr) (b c : Option ℕ) (d : List Interp)
    → Quiet x (process_setplugstate env x a b c d)
unfolding process_setplugstate
setplugstate-Quiet env x a b c d = (refl, refl, refl, refl)

write_send-Quiet : (env : Env) (x : Exec) (str : CStr) → Quiet x (write_send env x str)
unfolding write_send
write_send-Quiet env x str = ground arith

send-Quiet : (env : Env) (x : Exec) (fmt : CStr) → Quiet x (process_send env x fmt)
unfolding process_send start_send
send-Quiet env x fmt = ground (arith, write_send-Quiet env x)

delay-Quiet : (env : Env) (x : Exec) (tv : ℕ) → Quiet x (process_delay env x tv)
unfolding process_delay start_delay
delay-Quiet env x tv = ground arith

-- A context that is pushed takes off the current statement more than it weighs itself.
abbrev pub Pushed : ℕ → Stmt → ExecCtx → ExecCtx → Option ExecCtx → Type 0
Pushed n s e e' none = Unit
Pushed n s e e' (some new) =
    (e'.cur ≡ e.cur)
    × Within n new
    × (cur_weight n e'.plugitr e'.processing s + ctx_weight n new
        < cur_weight n e.plugitr e.processing s)

-- What a statement keeps and makes smaller, on a device with `n` plugs.
pub record Stepped (n : ℕ) (s : Stmt) (x y : Exec) : Type 0 where
  pub plugs : y.dev.plugs ≡ x.dev.plugs
  pub stmtitr : y.e.stmtitr ≡ x.e.stmtitr
  pub within : Within n y.e
  pub pushed : Pushed n s x.e y.e y.push

quiet-Pushed :
    (n : ℕ) (s : Stmt) (e e' : ExecCtx) (o : Option ExecCtx) → o ≡ none → Pushed n s e e' o
quiet-Pushed n s e e' none h = tt
quiet-Pushed n s e e' (some new) h = absurd (cc)

Quiet-Stepped :
    (n : ℕ) (s : Stmt) (x y : Exec) → Within n x.e → x.push ≡ none → Quiet x y → Stepped n s x y
Quiet-Stepped n s x y v h q = record {
  plugs = q.0;
  stmtitr = q.1;
  within = ground (arith, q.2);
  pushed = quiet-Pushed n s x.e y.e y.push (q.3 ∙ h);
}

pub create-Within :
    (n : ℕ) (stmts : Stmts) (plugs : Option (List Plug)) → Within n (create_exec_ctx stmts plugs)
unfolding create_exec_ctx
create-Within n stmts plugs = omega arith

-- What next_plug and next_node leave to visit.
next_plug-length :
    (ps : List Plug) (p : Plug) → (next_plug ps).0 ≡ some p → length (next_plug ps).1 < length ps
unfolding next_plug
next_plug-length [] p h = cc
next_plug-length (q ∷ ps) p h = omega arith

next_node-length :
    (ps : List Plug) (p : Plug) → (next_node ps).0 ≡ some p → length (next_node ps).1 < length ps
unfolding next_node
next_node-length [] p h = cc
next_node-length (q ∷ ps) p h = ground (arith, next_node-length ps p)

length-iterator : (x : Exec) → length (iterator x) ≡ to_visit (length x.dev.plugs) x.e.plugitr
length-iterator x = ground arith

-- A round of a foreach takes a plug and the weight of the block.
foreach_room : (k m b : ℕ) → k < m → (1 + k * (1 + b)) + b < 1 + m * (1 + b)
foreach_room k m b h = grind arith

foreach-Stepped :
    (x : Exec) (s : Stmt) (stmts : Stmts) (r : Option Plug × List Plug)
    → ((itr : Option (List Plug)) (p : Bool)
        → cur_weight (length x.dev.plugs) itr p s
          ≡ 1 + to_visit (length x.dev.plugs) itr * (1 + stmts_weight (length x.dev.plugs) stmts))
    → ((p : Plug) → r.0 ≡ some p → length r.1 < to_visit (length x.dev.plugs) x.e.plugitr)
    → Within (length x.dev.plugs) x.e
    → x.push ≡ none
    → Stepped (length x.dev.plugs) s x (process_foreach x stmts r)
unfolding process_foreach
foreach-Stepped x s stmts (none, ps) weight shorter v h = record {
  plugs = refl;
  stmtitr = refl;
  within = omega arith;
  pushed = quiet-Pushed (length x.dev.plugs) s x.e (record (x.e) { plugitr = none }) x.push h;
}
foreach-Stepped x s stmts (some p, ps) weight shorter v h = record {
  plugs = refl;
  stmtitr = refl;
  within = omega (arith, shorter p refl);
  pushed = (
    refl,
    create-Within _ stmts (one_plug p),
    rw
        (
          weight x.e.plugitr x.e.processing,
          weight (some ps) x.e.processing,
          ctx_weight-create (length x.dev.plugs) stmts (one_plug p),
        )
        (foreach_room (length ps) _ _ (shorter p refl)),
  );
}

if_first-Stepped :
    (n : ℕ) (x : Exec) (s : Stmt) (stmts : Stmts) (b : Branch)
    → ((itr : Option (List Plug)) (p : Bool)
        → cur_weight n itr p s ≡ (if p then 1 else 2 + stmts_weight n stmts))
    → x.e.processing ≡ false
    → Within n x.e
    → x.push ≡ none
    → Stepped n s x (if_first x stmts b)
unfolding if_first
if_first-Stepped n x s stmts enter weight idle v h = record {
  plugs = refl;
  stmtitr = refl;
  within = v;
  pushed = (
    refl,
    create-Within n stmts x.e.plugs,
    rw
        (
          weight x.e.plugitr true,
          weight x.e.plugitr x.e.processing,
          idle,
          ctx_weight-create n stmts x.e.plugs,
        )
        (omega arith),
  );
}
if_first-Stepped n x s stmts skip weight idle v h =
    Quiet-Stepped n s x (if_first x stmts skip) v h (refl, refl, refl, refl)
if_first-Stepped n x s stmts fail weight idle v h =
    Quiet-Stepped n s x (if_first x stmts fail) v h (refl, refl, refl, refl)

-- The world of the start does not matter.
Stepped-world :
    (n : ℕ) (s : Stmt) (x y : Exec) (w : World)
    → Stepped n s (record x { w = w }) y
    → Stepped n s x y
Stepped-world n s x y w q = record {
  plugs = q.plugs;
  stmtitr = q.stmtitr;
  within = q.within;
  pushed = q.pushed;
}

ifonoff-Stepped :
    (n : ℕ) (x : Exec) (s : Stmt) (stmts : Stmts) (on : Bool)
    → ((itr : Option (List Plug)) (p : Bool)
        → cur_weight n itr p s ≡ (if p then 1 else 2 + stmts_weight n stmts))
    → Within n x.e
    → x.push ≡ none
    → Stepped n s x (process_ifonoff x on stmts)
unfolding process_ifonoff
ifonoff-Stepped n x s stmts on weight v h =
    let w' = check_arglist x.w x.act.arglist (first_node x.e.plugs) in
    let done = record x { e = record (x.e) { processing = false }; finished = true } in
    if_cases (Stepped n s x) x.e.processing done _
      (λ _. Quiet-Stepped n s x done v h (refl, refl, refl, refl))
      (λ idle.
        Stepped-world n s x _ w'
          (if_first-Stepped n (record x { w = w' }) s stmts _ weight idle v h))

pub process_stmt-Stepped :
    (env : Env) (x : Exec) (s : Stmt)
    → Within (length x.dev.plugs) x.e
    → x.push ≡ none
    → Stepped (length x.dev.plugs) s x (process_stmt env x s)
unfolding process_stmt cur_weight
process_stmt-Stepped env x (send fmt) v h = Quiet-Stepped _ _ x _ v h (send-Quiet env x fmt)
process_stmt-Stepped env x (expect re) v h = Quiet-Stepped _ _ x _ v h (expect-Quiet env x re)
process_stmt-Stepped env x (setplugstate a b c d) v h =
    Quiet-Stepped _ _ x _ v h (setplugstate-Quiet env x a b c d)
process_stmt-Stepped env x (delay tv) v h = Quiet-Stepped _ _ x _ v h (delay-Quiet env x tv)
process_stmt-Stepped env x (foreachplug stmts) v h =
    foreach-Stepped x _ stmts _ (λ _ _. refl)
      (λ p e. rw (← length-iterator x) (next_plug-length (iterator x) p e)) v h
process_stmt-Stepped env x (foreachnode stmts) v h =
    foreach-Stepped x _ stmts _ (λ _ _. refl)
      (λ p e. rw (← length-iterator x) (next_node-length (iterator x) p e)) v h
process_stmt-Stepped env x (ifoff stmts) v h = ifonoff-Stepped _ x _ stmts false (λ _ _. refl) v h
process_stmt-Stepped env x (ifon stmts) v h = ifonoff-Stepped _ x _ stmts true (λ _ _. refl) v h

pub Stepped-at :
    (n : ℕ) (env : Env) (x : Exec) (s : Stmt)
    → length x.dev.plugs ≡ n
    → Within n x.e
    → Stepped n s (record x { push = none }) (process_stmt env (record x { push = none }) s)
Stepped-at n env x s size v =
    subst
      (λ m. Stepped m s (record x { push = none }) (process_stmt env (record x { push = none }) s))
      size
      (process_stmt-Stepped env (record x { push = none }) s
        (subst (λ m. Within m x.e) (sym size) v) refl)

-- What a run of statements leaves: less work, if it is not stalled.
pub record Ran (n : ℕ) (x : Exec) (outer : List ExecCtx) (r : Exec × List ExecCtx) : Type 0 where
  pub plugs : r.0.dev.plugs ≡ x.dev.plugs
  pub within : Within n r.0.e
  pub below : All (Within n) r.1
  pub less :
      r.0.finished ≡ true
      → stmts_weight n r.0.e.stmtitr + stack_weight n r.1 < ctx_weight n x.e + stack_weight n outer

ctx_weight-cur :
    (n : ℕ) (e : ExecCtx) (s : Stmt)
    → e.cur ≡ some s
    → ctx_weight n e ≡ cur_weight n e.plugitr e.processing s + stmts_weight n e.stmtitr
unfolding ctx_weight
ctx_weight-cur n e s h = ground arith

pub Ran-done :
    (n : ℕ) (x : Exec) (s : Stmt) (outer : List ExecCtx) (y : Exec)
    → x.e.cur ≡ some s
    → All (Within n) outer
    → Stepped n s (record x { push = none }) y
    → Ran n x outer (y, outer)
Ran-done n x s outer y c b q = record {
  plugs = q.plugs;
  within = q.within;
  below = b;
  less = λ _. omega (
    arith,
    ctx_weight-cur n x.e s c,
    cur_weight_pos n x.e.plugitr x.e.processing s,
    ap (stmts_weight n) q.stmtitr,
  );
}

-- Pushing a context makes the stack lighter.
pub push_less :
    (n : ℕ) (x : Exec) (s : Stmt) (y : Exec) (new : ExecCtx)
    → x.e.cur ≡ some s
    → Stepped n s (record x { push = none }) y
    → Pushed n s x.e y.e (some new)
    → ctx_weight n new + ctx_weight n y.e < ctx_weight n x.e
push_less n x s y new c q p = omega (
  arith,
  ctx_weight-cur n x.e s c,
  ctx_weight-cur n y.e s (p.0 ∙ c),
  ap (stmts_weight n) q.stmtitr,
  p.2,
)
