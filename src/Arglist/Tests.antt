-- ===== src/Arglist/Tests.antt =====
-- Runs of arglist.c at concrete inputs.
use powerman.Base.{◌≡◌, List, [], ◌∷◌, map, none, some, if◌then◌else◌}
use powerman.CStr.{CStr, codes, contains}
use powerman.Arglist.{Arg, st_on, create_arg, arglist_create, arglist_find, arglist_iterate}
use powerman.Arglist.Nodes.{Write, set_args, arglist_find-create, arglist_iterate-hosts}

abbrev hl : List CStr
hl = codes "n1" ∷ codes "n2" ∷ codes "n1" ∷ []

arglist_find-create_example :
    (arglist_find (arglist_create hl) (some (codes "n2"))
      ≡ (if contains (codes "n2") hl then some (create_arg (codes "n2")) else none))
    × (arglist_find (arglist_create hl) none ≡ none)
arglist_find-create_example = arglist_find-create hl (codes "n2")

abbrev writes : List Write
writes = record { node = codes "n1"; state = st_on; str = codes "on" } ∷ []

arglist_iterate-hosts_example :
    let al = arglist_create hl in
    map (λ (a : Arg). a.node) (arglist_iterate (set_args al.args writes) al.hl) ≡ hl
arglist_iterate-hosts_example = arglist_iterate-hosts hl writes
