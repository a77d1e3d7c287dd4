-- ===== src/Device/Enqueue/Rewind.antt =====
-- _rewind_action: the action that a login preempts starts its script over.
use powerman.Base.{◌≡◌, refl, sym, ap, ◌∙◌, true, List, [], ◌∷◌, some, arith, is_empty}
use mathlib.Core.List.{head-eq_of_cons-eq}
use powerman.CStr.{CStr}
use powerman.Device.{Stmts, cons, send, ExecCtx, Action, Env}
use powerman.Device.Enqueue.{next_stmt, rewind_exec, rewind_action}
use powerman.Device.Statement.{Exec, process_send, process_stmt}
use powerman.Device.Statement.Send.{process_send_once}

-- The outer context of a stack, which is its last.
pub outermost : ExecCtx → List ExecCtx → ExecCtx
outermost e [] = e
outermost e (outer ∷ rest) = outermost outer rest

-- A context at the start of its block.
abbrev pub restart : ExecCtx → ExecCtx
restart e = record e { cur = (next_stmt e.block).0; stmtitr = (next_stmt e.block).1 }

rewind_exec-outermost :
    (e : ExecCtx) (outer : List ExecCtx)
    → rewind_exec (e ∷ outer) ≡ restart (outermost e outer) ∷ []
unfolding rewind_exec outermost
rewind_exec-outermost e [] = refl
rewind_exec-outermost e (outer ∷ rest) = rewind_exec-outermost outer rest

-- A rewound action has one context, the outer one, at the first statement of its block with all the
-- others to come, and it keeps its callbacks, client and ArgList; but the context keeps its flag
-- `processing` and its iterator over plugs.
rewind_action_restarts :
    (act : Action) (e : ExecCtx) (outer : List ExecCtx)
    → act.exec ≡ e ∷ outer
    → rewind_action act ≡ record act { exec = restart (outermost e outer) ∷ [] }
unfolding rewind_action
rewind_action_restarts act e outer h =
    ap (λ es. record act { exec = es }) (ap rewind_exec h ∙ rewind_exec-outermost e outer)

-- A script that starts with a send, in an action that was rewound while a later statement of its
-- outer context was processing, does not send again: on a device with an empty output buffer, as a
-- disconnect leaves it, the first send is finished at once, with nothing written.
pub rewound_send_is_skipped :
    (env : Env) (x : Exec) (act : Action) (e : ExecCtx) (fmt : CStr) (ss : Stmts)
    → act.exec ≡ e ∷ []
    → e.block ≡ cons (send fmt) ss
    → e.processing ≡ true
    → (rewind_action act).exec ≡ x.e ∷ []
    → x.dev.to ≡ []
    → (x.e.cur ≡ some (send fmt))
      × ((process_stmt env x (send fmt)).dev.to ≡ [])
      × ((process_stmt env x (send fmt)).finished ≡ true)
unfolding process_stmt next_stmt outermost
rewound_send_is_skipped env x act e fmt ss h b p r t =
    let again : restart e ≡ x.e =
      head-eq_of_cons-eq
        (sym (ap (λ (a : Action). a.exec) (rewind_action_restarts act e [] h)) ∙ r) in
    let busy : x.e.processing ≡ true = sym (ap (λ (c : ExecCtx). c.processing) again) ∙ p in
    let (to, finished, _) = process_send_once env x fmt in
    let kept : (process_send env x fmt).dev.to ≡ [] = to ∙ ground (arith, busy, t) in
    (
      sym (ap (λ (c : ExecCtx). c.cur) again) ∙ ap (λ b. (next_stmt b).0) b,
      kept,
      finished ∙ ap is_empty kept,
    )
