-- ===== src/Device/Process/Ends.antt =====
-- _process_action against the weight of its queue.
use mathlib.Core.Path.{subst}
use powerman.Base.{
  ℕ, zero, suc, ◌+◌, ◌<◌, ◌≡◌, refl, sym, inl, inr, Bool, true, false, not, List, [], ◌∷◌, Option,
  some, arith, if◌then◌else◌, length, List-cases, All,
}
use powerman.Client.{World}
use powerman.Device.{ExecCtx, Action, Device, Env}
use powerman.Device.Timer.{timeout_passed}
use powerman.Device.Enqueue.{is_connected}
use powerman.Device.Statement.{Exec}
use powerman.Device.Process.{
  Round, stalled_round, after_stmts, stamp, round, process_action, expire, run_round, start,
  timeout_error, timeout_line,
}
use powerman.Device.Statement.{vpf}
use powerman.Device.Process.Weight.{ctx_weight, stack_weight, queue_weight, Within}
use powerman.Device.Process.Bounded.{Bounded}
use powerman.Device.Process.Runs.{
  process_action-none, process_action-round, stamp-exec, after_round,
}
use powerman.Device.Process.Work.{run_stmts-Runs, RoundLess, fail_action-less, after_stmts-less}

-- What a round of the loop gives: it ends, with less work left for a round after it.
abbrev Rounds : ℕ → ℕ → Option Round → Type 0
Rounds n m o = (r : Round) × (o ≡ some r) × RoundLess n m r

Rounds-if :
    (n m : ℕ) (b : Bool) (x : Round) (o : Option Round)
    → RoundLess n m x
    → (b ≡ false → Rounds n m o)
    → Rounds n m (if b then some x else o)
Rounds-if n m true x o h k = (x, refl, h)
Rounds-if n m false x o h k = k refl

expire-less :
    (n m : ℕ) (env : Env) (dev : Device) (act : Action) (rest : List Action) (w : World) (t : ℕ)
    → length dev.plugs ≡ n
    → 0 < m
    → RoundLess n m (expire env dev act rest w t)
unfolding expire
expire-less n m env dev act rest w t size h =
    fail_action-less n m env dev (record act { errnum = timeout_error dev }) rest
      (vpf w act (timeout_line env dev)) t size h

run_round-Rounds :
    (depth n : ℕ) (env : Env) (rest : List Action) (left : ℕ) (x : Exec) (outer : List ExecCtx)
    → length x.dev.plugs ≡ n
    → Within n x.e
    → All (Within n) outer
    → Bounded n rest
    → ctx_weight n x.e + stack_weight n outer < depth
    → Rounds n
        (1 + (ctx_weight n x.e + stack_weight n outer) + queue_weight n rest)
        (run_round depth env rest left x outer)
unfolding run_round
run_round-Rounds depth n env rest left x outer size v b c d =
    let (r, ran, ok) = run_stmts-Runs depth n env x outer size v b d in
    (
      after_stmts env rest left r.0 r.1,
      rw (ran, run_round),
      after_stmts-less n env rest left x outer r size ok c,
    )

round-Rounds :
    (depth n : ℕ) (env : Env) (dev : Device) (act : Action) (rest : List Action) (es : List ExecCtx)
    (w : World) (t : ℕ)
    → length dev.plugs ≡ n
    → act.exec ≡ es
    → All (Within n) es
    → Bounded n rest
    → stack_weight n es < depth
    → Rounds n (1 + stack_weight n es + queue_weight n rest) (round depth env dev act rest es w t)
unfolding round stack_weight
round-Rounds depth n env dev act rest [] w t size h b c d = (
  _,
  refl,
  record {
    plugs = size;
    bounded = (subst (All (Within n)) (sym h) tt, c);
    less = λ f. absurd (cc f);
  },
)
round-Rounds depth n env dev act rest (e ∷ outer) w t size h b c d =
    let (passed, left, w') = timeout_passed env w act.time_stamp dev.timeout in
    let x = start dev act e w' t in
    let m = 1 + (ctx_weight n e + stack_weight n outer) + queue_weight n rest in
    let stall = stalled_round dev act rest w' t left in
    let ran = run_round depth env rest left x outer in
    Rounds-if n m passed (expire env dev act rest w' t)
      (if not (is_connected dev.connect_state) then some stall else ran)
      (expire-less n m env dev act rest w' t size (omega arith))
      (λ _.
        Rounds-if n m (not (is_connected dev.connect_state)) stall ran
          (record {
            plugs = size;
            bounded = (subst (All (Within n)) (sym h) b, c);
            less = λ f. absurd (cc f);
          })
          (λ _. run_round-Rounds depth n env rest left x outer size b.0 b.1 c d))

-- What a call that ends gives: a device with the same number of plugs, bounded iterators.
abbrev pub Ends : ℕ → Option (Device × World × ℕ) → Type 0
Ends n o = (r : Device × World × ℕ) × (o ≡ some r) × (length r.0.plugs ≡ n) × Bounded n r.0.acts

first_round :
    (depth n : ℕ) (env : Env) (dev : Device) (w : World) (t : ℕ) (act : Action) (rest : List Action)
    → length dev.plugs ≡ n
    → dev.acts ≡ act ∷ rest
    → Bounded n dev.acts
    → queue_weight n dev.acts < depth
    → Rounds n (queue_weight n dev.acts) (
        round depth env dev (stamp env act w).0 rest (stamp env act w).0.exec (stamp env act w).1 t)
unfolding queue_weight
first_round depth n env dev w t act rest size h b d =
    let b' = subst (Bounded n) h b in
    let same = stamp-exec env act w in
    let result : Option Round =
      round depth env dev (stamp env act w).0 rest (stamp env act w).0.exec (stamp env act w).1 t in
    let d' : 1 + stack_weight n act.exec + queue_weight n rest < depth =
      subst (λ q. queue_weight n q < depth) h d in
    subst (λ q. Rounds n (queue_weight n q) result) (sym h)
      (subst (λ es. Rounds n (1 + stack_weight n es + queue_weight n rest) result) same
        (round-Rounds depth n env dev (stamp env act w).0 rest (stamp env act w).0.exec
          (stamp env act w).1 t size refl (subst (All (Within n)) (sym same) b'.0) b'.1
          (subst (λ es. stack_weight n es < depth) (sym same) (omega (arith, d')))))

after_round-Ends :
    (fuel depth n : ℕ) (env : Env) (r : Round) (go : Bool)
    → r.go_on ≡ go
    → length r.dev.plugs ≡ n
    → Bounded n r.dev.acts
    → (r.go_on ≡ true → Ends n (process_action fuel depth env r.dev r.w r.timeout))
    → Ends n (after_round fuel depth env r)
after_round-Ends fuel depth n env r true h size b more = subst (Ends n) (ground arith) (more h)
after_round-Ends fuel depth n env r false h size b more =
    ((r.dev, r.w, r.timeout), ground arith, size, b)

process_action-Ends :
    (fuel depth n : ℕ) (env : Env) (dev : Device) (w : World) (t : ℕ)
    → length dev.plugs ≡ n
    → Bounded n dev.acts
    → queue_weight n dev.acts < fuel
    → queue_weight n dev.acts < depth
    → Ends n (process_action fuel depth env dev w t)
process_action-Ends zero depth n env dev w t size b h d = elim h [ ]
process_action-Ends (suc fuel) depth n env dev w t size b h d = elim (List-cases dev.acts) [
  | inl e ↦ ((dev, w, t), process_action-none fuel depth env dev w t e, size, b)
  | inr (act, rest, e) ↦
      let (r, ran, ok) = first_round depth n env dev w t act rest size e b d in
      subst (Ends n) (sym (process_action-round fuel depth env dev w t act rest r e ran)) (
        after_round-Ends fuel depth n env r r.go_on refl ok.plugs ok.bounded (λ go.
          process_action-Ends fuel depth n env r.dev r.w r.timeout ok.plugs ok.bounded
            (omega (arith, ok.less go)) (omega (arith, ok.less go))))
]

-- _process_action returns: on a device whose foreach iterators stand within its plugs, fuel above
-- the weight of its queue is enough for the loop and for every inner loop. The device that it
-- leaves has as many plugs, and its iterators stand within them again.
pub process_action_ends :
    (fuel : ℕ) (env : Env) (dev : Device) (w : World) (timeout : ℕ)
    → Bounded (length dev.plugs) dev.acts
    → queue_weight (length dev.plugs) dev.acts < fuel
    → (r : Device × World × ℕ) × (process_action fuel fuel env dev w timeout ≡ some r)
      × (length r.0.plugs ≡ length dev.plugs)
      × Bounded (length r.0.plugs) r.0.acts
process_action_ends fuel env dev w timeout b h =
    let (r, ran, size, b') =
      process_action-Ends fuel fuel (length dev.plugs) env dev w timeout refl b h h in
    (r, ran, size, subst (λ n. Bounded n r.0.acts) (sym size) b')
