-- ===== src/Device/Poll/Balance.antt =====
-- The callbacks that the queues owe, through a round of dev_post_poll.
use mathlib.Core.Path.{subst}
use powerman.Base.{
  ℕ, ◌+◌, ◌≡◌, refl, sym, ◌∙◌, inl, inr, Bool, ◌||◌, List, [], ◌∷◌, Option, none, some, arith,
  Option-cases, if_both,
}
use powerman.Client.{World}
use powerman.Client.Finish.Pending.{Pending}
use powerman.Client.Input.Balance.{AllBalanced}
use powerman.Device.{Device, Env}
use powerman.Device.Enqueue.{is_connected}
use powerman.Device.Enqueue.Counting.{owed_by}
use powerman.Device.Connect.{is_not_connected}
use powerman.Device.Process.Callbacks.{owed, Balanced}
use powerman.Device.Process.Balance.{process_action-Balanced}
use powerman.Device.Poll.{Io, handle_device, reconnect_if, ping_if, post_poll_device, dev_post_poll}
use powerman.Device.Poll.Silent.{process_action-Silent}
use powerman.Device.Poll.Calm.{
  AllSilent, Silent, Calm, Calm-Balanced, Calm-then, same_queue, reconnect-Calm, enqueue_ping-Calm,
  handle_device-Calm,
}

reconnect_if-Calm :
    (failed : Bool) (env : Env) (dev : Device) (w : World) (t : ℕ)
    → Silent dev.acts
    → Calm dev w (reconnect_if failed env dev w t).0 (reconnect_if failed env dev w t).1
unfolding reconnect_if
reconnect_if-Calm failed env dev w t s =
    if_both (λ (r : Device × World × ℕ). Calm dev w r.0 r.1)
      (failed || is_not_connected dev.connect_state) _ _ (reconnect-Calm env dev w t s)
      (same_queue dev dev w w s refl refl)

ping_if-Calm :
    (env : Env) (dev : Device) (w : World) (t : ℕ)
    → Silent dev.acts
    → Calm dev w (ping_if env dev w t).0 (ping_if env dev w t).1
unfolding ping_if
ping_if-Calm env dev w t s =
    if_both (λ (r : Device × World × ℕ). Calm dev w r.0 r.1) (is_connected dev.connect_state) _ _
      (enqueue_ping-Calm env dev w t s) (same_queue dev dev w w s refl refl)

post_poll_device-Balanced :
    (fuel : ℕ) (env : Env) (io : Io) (m : ℕ → ℕ) (dev : Device) (w : World) (t : ℕ)
    (r : Device × World × ℕ)
    → post_poll_device fuel env io dev w t ≡ some r
    → Silent dev.acts
    → Balanced m dev.acts w
    → Silent r.0.acts × Balanced m r.0.acts r.1
unfolding post_poll_device
post_poll_device-Balanced fuel env io m dev w t r h s b =
    let handled = handle_device-Calm env io dev w s in
    let (d, v, failed) = handle_device env io dev w in
    let connected = reconnect_if-Calm failed env d v t handled.silent in
    let (d', v', t') = reconnect_if failed env d v t in
    let pinged = ping_if-Calm env d' v' t' connected.silent in
    let (d'', v'', t'') = ping_if env d' v' t' in
    let all = Calm-then dev d d'' w v v'' handled (Calm-then d d' d'' v v' v'' connected pinged) in
    (
      process_action-Silent fuel fuel env d'' v'' t'' r h all.silent,
      process_action-Balanced fuel fuel env m d'' v'' t'' r h (Calm-Balanced m dev d'' w v'' all b),
    )

-- No queue has a login with a callback, and each client waits for what the queues owe it, and `m`
-- more.
Polled : (ℕ → ℕ) → Option (List Device × World × ℕ) → Type 0
Polled m none = Unit
Polled m (some r) = AllSilent r.0 × ((i : ℕ) → Pending r.1 i (owed_by i r.0 + m i))

-- The queue of a device after the others, and before them.
moved_last : (a b c : ℕ) → a + b + c ≡ a + (b + c)
moved_last a b c = omega arith

moved_first : (a b c : ℕ) → a + (b + c) ≡ b + (a + c)
moved_first a b c = omega arith

plus_zero : (a : ℕ) → a ≡ a + 0
plus_zero a = omega arith

Polled-cons :
    (m : ℕ → ℕ) (dev : Device) (devs : List Device) (w : World) (t : ℕ)
    → Silent dev.acts
    → Polled (λ i. owed i dev.acts + m i) (some (devs, w, t))
    → Polled m (some (dev ∷ devs, w, t))
unfolding Polled
Polled-cons m dev devs w t s p = (
  (s, p.0),
  λ i.
      subst (Pending w i)
        (moved_first (owed_by i devs) (owed i dev.acts) (m i)
          ∙ sym (moved_last (owed i dev.acts) (owed_by i devs) (m i)))
        (p.1 i),
)

dev_post_poll-Polled :
    (fuel : ℕ) (env : Env) (io : Io) (m : ℕ → ℕ) (devs : List Device) (w : World) (t : ℕ)
    → AllSilent devs
    → ((i : ℕ) → Pending w i (owed_by i devs + m i))
    → Polled m (dev_post_poll fuel env io devs w t)
unfolding dev_post_poll Polled
dev_post_poll-Polled fuel env io m [] w t s b = (tt, b)
dev_post_poll-Polled fuel env io m (dev ∷ devs) w t s b =
    elim (Option-cases (post_poll_device fuel env io dev w t)) [
      | inl e ↦ rw (e, dev_post_poll) tt
      | inr ((dev', w', t'), e) ↦
          let others = λ (i : ℕ). owed_by i devs + m i in
          let one =
            post_poll_device-Balanced fuel env io others dev w t (dev', w', t') e s.0
              (λ i.
                subst (Pending w i) (moved_last (owed i dev.acts) (owed_by i devs) (m i)) (b i)) in
          let m' = λ (i : ℕ). owed i dev'.acts + m i in
          let rest = dev_post_poll-Polled fuel env io m' devs w' t' s.1 (λ i.
            subst (Pending w' i) (moved_first (owed i dev'.acts) (owed_by i devs) (m i))
              (one.1 i)) in
          elim (Option-cases (dev_post_poll fuel env io devs w' t')) [
            | inl f ↦ rw (e, f, dev_post_poll) tt
            | inr ((devs', w'', t''), f) ↦
                rw (e, f, dev_post_poll)
                  (Polled-cons m dev' devs' w'' t'' one.0 (subst (Polled m') f rest))
          ]
    ]

-- dev_post_poll keeps the balance of callbacks over all devices: if no login in a queue has a
-- callback, and each client waits for as many actions as the queues have callbacks for it, then both
-- hold after the round, in which devices may have been read, written, lost, reconnected, logged in to
-- and pinged, and their actions processed.
pub dev_post_poll-AllBalanced :
    (fuel : ℕ) (env : Env) (io : Io) (devs : List Device) (w : World) (t : ℕ)
    (r : List Device × World × ℕ)
    → dev_post_poll fuel env io devs w t ≡ some r
    → AllSilent devs
    → AllBalanced devs w
    → AllSilent r.0 × AllBalanced r.0 r.1
unfolding Polled
dev_post_poll-AllBalanced fuel env io devs w t r h s b =
    let none_more : ℕ → ℕ = λ j. 0 in
    let start : (j : ℕ) → Pending w j (owed_by j devs + 0) =
      λ j. subst (Pending w j) (plus_zero (owed_by j devs)) (b j) in
    let p : Polled none_more (some r) =
      subst (Polled none_more) h (dev_post_poll-Polled fuel env io none_more devs w t s start) in
    (p.0, λ i. subst (Pending r.1 i) (sym (plus_zero (owed_by i r.0))) (p.1 i))
