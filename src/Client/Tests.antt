-- ===== src/Client/Tests.antt =====
-- Runs of client.c at concrete inputs.
use powerman.Base.{◌≡◌, refl, inl, inr, [], ◌∷◌, some, arith, Bool-cases, ◌==◌}
use powerman.CStr.{codes}
use powerman.Client.{find_client}
use powerman.Client.Finish.{act_eexpfail, act_finish}
use powerman.Client.Finish.Pending.{Pending, Finished, act_finish-Finished}
use powerman.Client.Input.{hostlist_create_validated, parse_input}
use powerman.Client.Input.Validated.{Validated, hostlist_create_validated_exists}
use powerman.Client.Input.Balance.{AllBalanced, parse_input_balanced}
use powerman.Client.Input.Logins.{parse_input-logins}
use powerman.Device.Enqueue.Logins.{all_logins}
use powerman.Samples.{hosts, conf, dev, idle_client, idle_world, waiting_world}

waits_for_one : Pending waiting_world 7 1
unfolding find_client
waits_for_one = (refl, omega arith, refl)

act_finish-Finished_example :
    Finished waiting_world 7 0
      (act_finish hosts waiting_world 7 act_eexpfail (codes "pdu: timeout"))
act_finish-Finished_example =
    act_finish-Finished hosts waiting_world 7 0 act_eexpfail (codes "pdu: timeout") waits_for_one

hostlist_create_validated_exists_example :
    Validated hosts conf (codes "both") (hostlist_create_validated hosts conf (codes "both"))
hostlist_create_validated_exists_example =
    hostlist_create_validated_exists hosts conf (codes "both")

idle_found : find_client idle_world.clients 7 ≡ some idle_client
unfolding find_client
idle_found = refl

none_waits : AllBalanced (dev ∷ []) idle_world
unfolding find_client
none_waits i = elim (Bool-cases (7 == i)) [ inl e ↦ ground (arith, e) | inr e ↦ ground (arith, e) ]

parse_input_balanced_example :
    AllBalanced
      (parse_input hosts (λ to. to) (dev ∷ []) idle_world idle_client (codes "on t1")).0
      (parse_input hosts (λ to. to) (dev ∷ []) idle_world idle_client (codes "on t1")).1
parse_input_balanced_example =
    parse_input_balanced hosts (λ to. to) (dev ∷ []) idle_world idle_client (codes "on t1")
      idle_found none_waits

parse_input-logins_example :
    all_logins (parse_input hosts (λ to. to) (dev ∷ []) idle_world idle_client (codes "on t1")).0
    ≡ all_logins (dev ∷ [])
parse_input-logins_example =
    parse_input-logins hosts (λ to. to) (dev ∷ []) idle_world idle_client (codes "on t1")
