-- ===== src/Device/Process/Work.antt =====
-- The work left in the queue after a run of statements and after a round of _process_action.
use mathlib.Core.Path.{subst}
use powerman.Base.{
  ℕ, zero, suc, if_both, if_cases, ◌+◌, ◌≤◌, ◌<◌, ◌≡◌, refl, sym, ap, ◌∙◌, inl, inr, Bool, true,
  false, not, List, [], ◌∷◌, Option, none, some, arith, length, Option-cases, All,
}
use powerman.Client.{World}
use powerman.Client.Finish.{is_success}
use powerman.Device.{Stmt, Stmts, nil, cons, ExecCtx, Action, Device, Env}
use powerman.Device.Enqueue.{is_connected}
use powerman.Device.Statement.{Exec}
use powerman.Device.Process.{
  Round, fail_action, succeed_action, advance, next_round, run_stmts, after_stmts, complete_action,
  abort_actions, abort_error,
}
use powerman.Device.Process.Weight.{
  stmts_weight, ctx_weight, stack_weight, queue_weight, Within, cur_weight_le, stmts_weight-cons,
}
use powerman.Device.Process.Bounded.{Bounded, reconnect-KeepsBound}
use powerman.Device.Process.Steps.{Stepped, Pushed, Stepped-at, Ran, Ran-done, push_less}
use powerman.Device.Process.Runs.{ran_stmt, stuck, run_stmts-stuck, run_stmts-stop, run_stmts-push}

abbrev pub Runs : ℕ → Exec → List ExecCtx → Option (Exec × List ExecCtx) → Type 0
Runs n x outer o = (r : Exec × List ExecCtx) × (o ≡ some r) × Ran n x outer r

Ran-push :
    (n : ℕ) (x : Exec) (s : Stmt) (outer : List ExecCtx) (y : Exec) (new : ExecCtx)
    (r : Exec × List ExecCtx)
    → x.e.cur ≡ some s
    → Stepped n s (record x { push = none }) y
    → Pushed n s x.e y.e (some new)
    → Ran n (record y { e = new }) (y.e ∷ outer) r
    → Ran n x outer r
unfolding stack_weight
Ran-push n x s outer y new r c q p ran = record {
  plugs = ran.plugs ∙ q.plugs;
  within = ran.within;
  below = ran.below;
  less = λ h. omega (arith, ran.less h, push_less n x s y new c q p);
}

-- An inner loop with fuel above the weight of the stack ends.
pub run_stmts-Runs :
    (fuel n : ℕ) (env : Env) (x : Exec) (outer : List ExecCtx)
    → length x.dev.plugs ≡ n
    → Within n x.e
    → All (Within n) outer
    → ctx_weight n x.e + stack_weight n outer < fuel
    → Runs n x outer (run_stmts fuel env x outer)
unfolding stack_weight
run_stmts-Runs zero n env x outer size v b h = elim h [ ]
run_stmts-Runs (suc fuel) n env x outer size v b h = elim (Option-cases x.e.cur) [
  | inl c ↦ (
    (stuck x, outer),
    run_stmts-stuck fuel env x outer c,
    record { plugs = refl; within = v; below = b; less = λ f. absurd (cc f) },
  )
  | inr (s, c) ↦
      let q = Stepped-at n env x s size v in
      let y = ran_stmt env x s in
      elim (Option-cases y.push) [
        | inl p ↦ ((y, outer), run_stmts-stop fuel env x outer s c p, Ran-done n x s outer y c b q)
        | inr (new, p) ↦
            let moved : Pushed n s x.e y.e (some new) = subst (Pushed n s x.e y.e) p q.pushed in
            let (r, e, ran) =
              run_stmts-Runs fuel n env (record y { e = new }) (y.e ∷ outer)
                (ap length q.plugs ∙ size) moved.1 (q.within, b)
                (omega (arith, push_less n x s y new c q moved)) in
            (
              r,
              run_stmts-push fuel env x outer s new c p ∙ e,
              Ran-push n x s outer y new r c q moved ran,
            )
      ]
]

-- What a round leaves: if the loop goes on, a queue with less work than `m`.
pub record RoundLess (n m : ℕ) (r : Round) : Type 0 where
  pub plugs : length r.dev.plugs ≡ n
  pub bounded : Bounded n r.dev.acts
  pub less : r.go_on ≡ true → queue_weight n r.dev.acts < m

pub fail_action-less :
    (n m : ℕ) (env : Env) (dev : Device) (act : Action) (rest : List Action) (w : World) (t : ℕ)
    → length dev.plugs ≡ n
    → 0 < m
    → RoundLess n m (fail_action env dev act rest w t)
unfolding fail_action queue_weight
fail_action-less n m env dev act rest w t size h =
    let w' = complete_action env dev.name act w in
    let w'' = abort_actions env dev.name (abort_error act.errnum) rest w' in
    let kept = reconnect-KeepsBound env (record dev { acts = [] }) w'' t in
    if_both (RoundLess n m) (is_connected dev.connect_state) _ _
      (record { plugs = ap length kept.0 ∙ size; bounded = kept.1 n tt; less = λ f. absurd (cc f) })
      (record { plugs = size; bounded = tt; less = λ _. omega arith })

abbrev Advanced : ℕ → ExecCtx → List ExecCtx → List ExecCtx → Type 0
Advanced n e outer es =
    All (Within n) es × (stack_weight n es ≤ stmts_weight n e.stmtitr + stack_weight n outer)

advance-nil : (e : ExecCtx) (outer : List ExecCtx) → e.stmtitr ≡ nil → advance e outer ≡ outer
unfolding advance
advance-nil e outer h = ground arith

advance-cons :
    (e : ExecCtx) (outer : List ExecCtx) (s : Stmt) (ss : Stmts)
    → e.stmtitr ≡ cons s ss
    → advance e outer ≡ record e { cur = some s; stmtitr = ss } ∷ outer
unfolding advance
advance-cons e outer s ss h = ground arith

Advanced-at :
    (n : ℕ) (e : ExecCtx) (outer : List ExecCtx) (ss : Stmts)
    → e.stmtitr ≡ ss
    → Within n e
    → All (Within n) outer
    → Advanced n e outer (advance e outer)
unfolding stack_weight ctx_weight
Advanced-at n e outer nil h v b =
    subst (Advanced n e outer) (sym (advance-nil e outer h)) (b, omega arith)
Advanced-at n e outer (cons s ss) h v b =
    subst (Advanced n e outer) (sym (advance-cons e outer s ss h)) (
      (v, b),
      omega (
        arith,
        cur_weight_le n e.plugitr e.processing s v,
        ap (stmts_weight n) h,
        stmts_weight-cons n s ss,
      ),
    )

advance-weight :
    (n : ℕ) (e : ExecCtx) (outer : List ExecCtx)
    → Within n e
    → All (Within n) outer
    → Advanced n e outer (advance e outer)
advance-weight n e outer v b = Advanced-at n e outer e.stmtitr refl v b

next_round-less :
    (n m : ℕ) (env : Env) (dev : Device) (act : Action) (rest : List Action) (es : List ExecCtx)
    (w : World) (t : ℕ)
    → length dev.plugs ≡ n
    → All (Within n) es
    → Bounded n rest
    → stack_weight n es < m
    → RoundLess n (1 + m + queue_weight n rest) (next_round env dev act rest es w t)
unfolding next_round succeed_action queue_weight
next_round-less n m env dev act rest [] w t size b c h = record {
  plugs = size;
  bounded = c;
  less = λ _. omega arith;
}
next_round-less n m env dev act rest (e ∷ outer) w t size b c h = record {
  plugs = size;
  bounded = (b, c);
  less = λ _. omega arith;
}

not_done : (b : Bool) → not b ≡ false → b ≡ true
not_done true h = refl
not_done false h = cc

pub after_stmts-less :
    (n : ℕ) (env : Env) (rest : List Action) (left : ℕ) (x : Exec) (outer : List ExecCtx)
    (r : Exec × List ExecCtx)
    → length x.dev.plugs ≡ n
    → Ran n x outer r
    → Bounded n rest
    → RoundLess n
        (1 + (ctx_weight n x.e + stack_weight n outer) + queue_weight n rest)
        (after_stmts env rest left r.0 r.1)
unfolding after_stmts
after_stmts-less n env rest left x outer (y, below) size ran c =
    let size' = ap length ran.plugs ∙ size in
    let m = ctx_weight n x.e + stack_weight n outer in
    let es = advance y.e below in
    if_cases (RoundLess n (1 + m + queue_weight n rest)) (not y.finished) _ _
      (λ _. record {
        plugs = size';
        bounded = ((ran.within, ran.below), c);
        less = λ f. absurd (cc f);
      })
      (λ done.
        if_both (RoundLess n (1 + m + queue_weight n rest)) (is_success y.act.errnum) _ _
          (next_round-less n m env y.dev y.act rest es y.w y.timeout size'
            (advance-weight n y.e below ran.within ran.below).0 c
            (omega (
              arith,
              (advance-weight n y.e below ran.within ran.below).1,
              ran.less (not_done y.finished done),
            )))
          (fail_action-less n _ env y.dev (record (y.act) { exec = y.e ∷ below }) rest y.w y.timeout
            size' (omega arith)))
