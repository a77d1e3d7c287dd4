-- ===== src/Device/Tests.antt =====
-- Runs of device.c at concrete inputs.
use powerman.Base.{
  ℕ, zero, ◌+◌, ◌*◌, ◌≤◌, ◌<◌, ◌≡◌, ◌≢◌, ◌↔◌, ◌⊎◌, inl, inr, refl, true, false, not, List, [], ◌∷◌,
  none, some, arith, if◌then◌else◌, length, take, drop, is_some, is_empty, All, Bool-cases, ◌==◌,
}
use powerman.CStr.{CStr, codes, contains, str_eq}
use powerman.Xregex.{match_end}
use powerman.Commands
use powerman.Commands.{
  Com, get_all_script, get_ranged_script, is_query_action, all_version, ranged_version, if_script,
}
use powerman.Client.{World, find_client}
use powerman.Device.{send, expect, nil, cons, ExecCtx, Action, Device}
use powerman.Device.Timer.{retry_seconds, time_to_reconnect}
use powerman.Device.Timer.Backoff.{retry_seconds_bounds, time_to_reconnect_waits}
use powerman.Device.Enqueue.{
  Request, rewind_action, rewind_exec, next_stmt, is_target, dev_check_actions, dev_enqueue_actions,
  enqueue_targetted_actions,
}
use powerman.Device.Enqueue.Targets.{
  Appends, chosen, all_targets, enqueue_targetted_actions-chosen, all_only_skips,
}
use powerman.Device.Enqueue.Check.{Serves, dev_check_actions_iff}
use powerman.Device.Enqueue.Counting.{debt, owed_by, dev_enqueue_actions_counts}
use powerman.Device.Enqueue.Rewind.{rewound_send_is_skipped}
use powerman.Device.Statement.{Exec, process_send, process_expect, process_delay, process_stmt}
use powerman.Device.Statement.Send.{
  written, input_match, process_send_once, process_expect_consumes, process_delay_waits,
}
use powerman.Device.Process.{process_action}
use powerman.Device.Process.Weight.{
  queue_weight, stack_weight, ctx_weight, stmts_weight, cur_weight, stmt_weight, opt_weight,
}
use powerman.Device.Process.Bounded.{Bounded}
use powerman.Device.Process.Ends.{process_action_ends}
use powerman.Device.Process.Expiry.{process_action_expires}
use powerman.Device.Process.Callbacks.{Balanced, owed}
use powerman.Device.Process.Balance.{process_action-Balanced}
use powerman.Client.Input.Balance.{AllBalanced}
use powerman.Device.Poll.{
  Io, handle_device, reconnect_if, ping_if, enqueue_ping, post_poll_device, dev_post_poll,
}
use powerman.Device.Poll.Calm.{AllSilent}
use powerman.Device.Poll.Balance.{dev_post_poll-AllBalanced}
use powerman.Client.Finish.Pending.{Pending}
use powerman.Samples.{hosts, env, dev, busy_dev, action, ctx, exec, waiting_world, idle_world, t1}

abbrev ask : Request
ask = record { complete_fun = true; vpf_fun = false; client_id = 7; arglist = none }

abbrev one_node : List CStr
one_node = t1 ∷ []

retry_seconds_bounds_example :
    (0 < retry_seconds 3) × (retry_seconds 3 ≤ retry_seconds 9) × (retry_seconds 9 ≤ 60)
retry_seconds_bounds_example = retry_seconds_bounds 3 9 (omega arith) (omega arith)

two_retries : dev.retry_count ≢ 0
two_retries = λ h. omega (arith, h)

time_to_reconnect_waits_example :
    let r = time_to_reconnect env idle_world dev 0 in
    let due = 0 + retry_seconds 2 * 1_000_000 in
    ((r.0 ≡ true) × (due ≤ 500) × (r.1 ≡ 0))
    ⊎ ((r.0 ≡ false) × (0 < r.1) × (500 + r.1 ≤ due) × ((zero ≡ zero) ⊎ (r.1 ≤ 0)))
time_to_reconnect_waits_example = time_to_reconnect_waits env idle_world dev 0 two_retries

enqueue_targetted_actions-chosen_example :
    Appends dev
      (chosen hosts dev Commands.pm_power_on one_node ask)
      (enqueue_targetted_actions hosts dev idle_world Commands.pm_power_on one_node ask)
enqueue_targetted_actions-chosen_example =
    enqueue_targetted_actions-chosen hosts dev idle_world Commands.pm_power_on one_node ask

dev_check_actions_iff_example :
    dev_check_actions hosts (dev ∷ []) Commands.pm_power_on one_node ≡ true
    ↔ All (Serves hosts idle_world Commands.pm_power_on one_node ask) (dev ∷ [])
dev_check_actions_iff_example =
    dev_check_actions_iff hosts (dev ∷ []) idle_world Commands.pm_power_on one_node ask

has_all : get_all_script dev.scripts Commands.pm_power_off ≡ some Commands.pm_power_off_all
unfolding get_all_script all_version if_script
has_all = refl

has_no_ranged : get_ranged_script dev.scripts Commands.pm_power_off ≡ none
unfolding get_ranged_script ranged_version if_script
has_no_ranged = refl

no_query : is_query_action Commands.pm_power_off ≡ false
unfolding is_query_action
no_query = refl

not_all : all_targets hosts one_node dev.plugs ≡ false
unfolding all_targets is_target contains str_eq
not_all = refl

all_only_skips_example :
    (dev_check_actions hosts (dev ∷ []) Commands.pm_power_off one_node ≡ true)
    × ((enqueue_targetted_actions hosts dev idle_world Commands.pm_power_off one_node ask).0.acts
        ≡ dev.acts)
    × ((enqueue_targetted_actions hosts dev idle_world Commands.pm_power_off one_node ask).1 ≡ 0)
all_only_skips_example =
    all_only_skips hosts dev idle_world Commands.pm_power_off Commands.pm_power_off_all one_node ask
      refl has_all has_no_ranged no_query not_all

dev_enqueue_actions_counts_example :
    owed_by 7 (dev_enqueue_actions hosts (dev ∷ []) idle_world Commands.pm_power_on one_node ask).0
    ≡ owed_by 7 (dev ∷ [])
      + debt ask 7
          (dev_enqueue_actions hosts (dev ∷ []) idle_world Commands.pm_power_on one_node ask).1
dev_enqueue_actions_counts_example =
    dev_enqueue_actions_counts hosts (dev ∷ []) idle_world Commands.pm_power_on one_node ask 7

-- The second statement was processing when the connection was lost.
abbrev later : ExecCtx
later = record ctx { cur = some (expect (codes "ok")); stmtitr = nil; processing = true }

abbrev preempted : Action
preempted = record action { exec = later ∷ [] }

abbrev rewound : Exec
rewound = record exec { e = record ctx { processing = true } }

rewound_exec : (rewind_action preempted).exec ≡ rewound.e ∷ []
unfolding rewind_action rewind_exec next_stmt
rewound_exec = refl

rewound_send_is_skipped_example :
    (rewound.e.cur ≡ some (send (codes "on %s")))
    × ((process_stmt env rewound (send (codes "on %s"))).dev.to ≡ [])
    × ((process_stmt env rewound (send (codes "on %s"))).finished ≡ true)
rewound_send_is_skipped_example =
    rewound_send_is_skipped env rewound preempted later (codes "on %s")
      (cons (expect (codes "ok")) nil) refl refl refl rewound_exec refl

process_send_once_example :
    let y = process_send env exec (codes "on %s") in
    (y.dev.to ≡ (if exec.e.processing then exec.dev.to else written env exec (codes "on %s")))
    × (y.finished ≡ is_empty y.dev.to)
    × (y.e.processing ≡ not y.finished)
process_send_once_example = process_send_once env exec (codes "on %s")

process_expect_consumes_example :
    let y = process_expect env exec (codes "ok") in
    let m = input_match env exec (codes "ok") in
    (y.finished ≡ is_some m)
    × (y.dev.from ≡ elim m [
      | none ↦ exec.dev.from
      | some pm ↦ drop (match_end (take exec.dev.xmatch.nmatch pm)) exec.dev.from
    ])
process_expect_consumes_example = process_expect_consumes env exec (codes "ok")

abbrev delaying : Exec
delaying = record exec { e = record ctx { processing = true } }

process_delay_waits_example :
    let y = process_delay env delaying 1000 in
    ((y.finished ≡ true) × (1100 ≤ 500))
    ⊎ ((y.finished ≡ false)
        × (500 < 1100)
        × (0 < y.timeout)
        × (500 + y.timeout ≤ 1100)
        × ((delaying.timeout ≡ 0) ⊎ (y.timeout ≤ delaying.timeout)))
process_delay_waits_example = process_delay_waits env delaying 1000 refl refl

bounded : Bounded (length busy_dev.plugs) busy_dev.acts
bounded = ((omega arith, tt), tt)

light : queue_weight (length busy_dev.plugs) busy_dev.acts < 20
unfolding queue_weight stack_weight ctx_weight stmts_weight cur_weight stmt_weight opt_weight
light = omega arith

process_action_ends_example :
    (r : Device × World × ℕ) × (process_action 20 20 env busy_dev waiting_world 0 ≡ some r)
    × (length r.0.plugs ≡ length busy_dev.plugs)
    × Bounded (length r.0.plugs) r.0.acts
process_action_ends_example = process_action_ends 20 env busy_dev waiting_world 0 bounded light

ended :
    (r : Device × World × ℕ) × (process_action 20 20 env busy_dev waiting_world 0 ≡ some r)
    × (length r.0.plugs ≡ length busy_dev.plugs)
    × Bounded (length r.0.plugs) r.0.acts
ended = process_action_ends 20 env busy_dev waiting_world 0 bounded light

balanced : Balanced (λ i. 0) busy_dev.acts waiting_world
unfolding find_client
balanced i = elim (Bool-cases (7 == i)) [ inl e ↦ ground (arith, e) | inr e ↦ ground (arith, e) ]

process_action-Balanced_example : Balanced (λ i. 0) ended.0.0.acts ended.0.1
process_action-Balanced_example =
    process_action-Balanced 20 20 env (λ i. 0) busy_dev waiting_world 0 ended.0 ended.1 balanced

-- The same device with a timeout of 300 microseconds, which have passed.
abbrev late_dev : Device
late_dev = record busy_dev { timeout = 300 }

process_action_expires_example :
    (r : Device × World × ℕ) × (process_action 2 0 env late_dev waiting_world 0 ≡ some r)
    × ((i : ℕ) → (owed i r.0.acts ≡ 0) × Pending r.1 i 0)
process_action_expires_example =
    process_action_expires 0 0 env (λ i. 0) late_dev action [] ctx [] waiting_world 0 refl refl refl
      (omega arith) balanced

-- No device is ready.
abbrev quiet : Io
quiet = record { read = λ i d. none; write = λ i d. none; revents = λ i d. none }

one_round : post_poll_device 20 env quiet busy_dev waiting_world 0 ≡ some ended.0
unfolding post_poll_device handle_device reconnect_if ping_if enqueue_ping
one_round = ended.1

polled :
    dev_post_poll 20 env quiet (busy_dev ∷ []) waiting_world 0
    ≡ some (ended.0.0 ∷ [], ended.0.1, ended.0.2)
unfolding dev_post_poll
polled = rw (one_round, dev_post_poll) refl

silent : AllSilent (busy_dev ∷ [])
silent = ((refl, tt), tt)

all_balanced : AllBalanced (busy_dev ∷ []) waiting_world
unfolding find_client
all_balanced i = elim (Bool-cases (7 == i)) [
  | inl e ↦ ground (arith, e)
  | inr e ↦ ground (arith, e)
]

dev_post_poll-AllBalanced_example :
    AllSilent (ended.0.0 ∷ []) × AllBalanced (ended.0.0 ∷ []) ended.0.1
dev_post_poll-AllBalanced_example =
    dev_post_poll-AllBalanced 20 env quiet (busy_dev ∷ []) waiting_world 0
      (ended.0.0 ∷ [], ended.0.1, ended.0.2) polled silent all_balanced
