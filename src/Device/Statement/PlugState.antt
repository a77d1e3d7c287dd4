-- ===== src/Device/Statement/PlugState.antt =====
-- _process_setplugstate: what a device says of a plug, in the ArgList of the command.
use powerman.Base.{
  ℕ, ◌≡◌, refl, ap, ◌∙◌, Bool, ◌||◌, ◌==◌, true, false, List, Option, none, some, arith,
  if◌then◌else◌,
}
use powerman.CStr.{CStr, str_eq}
use powerman.Pluglist.{Plug}
use powerman.Xregex.{xregex_match_sub_strdup}
use powerman.Arglist.Nodes.{hash_find-set_arg}
use powerman.Arglist.{InterpState, Arg, ArgList, ArgStore, arglist_find, set_arg_at}
use powerman.Client.{World, abort}
use powerman.Device.{Interp, Env}
use powerman.Device.Statement.{
  Exec, find_arg, interp_state, target_name, write_state, find_plug, set_plug_state, name_world,
  process_setplugstate,
}

-- What a write of a state and a text leaves of an Arg.
abbrev pub told : CStr → InterpState → CStr → Arg → CStr → Arg
told node state' str a key =
    if str_eq node key then record a { state = state'; val = some str } else a

abort-args : (b : Bool) (w : World) → (if b then abort w else w).args ≡ w.args
unfolding abort
abort-args true w = refl
abort-args false w = refl

module _ (env : Env) (x : Exec) (interps : List Interp) where
  name_world-args :
      (name : CStr) (failed : Bool) (r : Option CStr × Bool)
      → (name_world (some name) env x failed r interps).args
        ≡ (set_plug_state env x.dev x.w x.act.arglist name r.0 interps).args
  unfolding name_world
  name_world-args name failed (str, failed') =
      abort-args (failed || failed') (set_plug_state env x.dev x.w x.act.arglist name str interps)

  -- The ArgLists after a statement whose plug, node, status text and ArgList are these.
  setplugstate-args :
      (plug_name : Option CStr) (plug_mp stat_mp : Option ℕ) (name str node : CStr) (plug : Plug)
      (p : ℕ)
      → (target_name x.dev.xmatch x.e.plugs plug_name plug_mp).0 ≡ some name
      → (xregex_match_sub_strdup x.dev.xmatch stat_mp).0 ≡ some str
      → find_plug x.dev name ≡ some plug
      → plug.node ≡ some node
      → x.act.arglist ≡ some p
      → (process_setplugstate env x plug_name plug_mp stat_mp interps).w.args
        ≡ set_arg_at x.w.args p node (interp_state env.regexec interps str) str
  unfolding process_setplugstate set_plug_state write_state
  setplugstate-args plug_name plug_mp stat_mp name str node plug p n s f h a =
      let target = target_name x.dev.xmatch x.e.plugs plug_name plug_mp in
      let r = xregex_match_sub_strdup x.dev.xmatch stat_mp in
      ap (λ o. (name_world o env x target.1 r interps).args) n
      ∙ name_world-args name target.1 r
      ∙ rw (a) (rw (s, set_plug_state) (rw (f) (rw (h, write_state) refl)))

-- A write to an ArgList, as its readers see it, and the other ArgLists.
set_arg_at-reads :
    (s : ArgStore) (p : ℕ) (node : CStr) (state' : InterpState) (str : CStr) (al : ArgList)
    → s.cell p ≡ some al
    → ((key : CStr)
        → find_arg (set_arg_at s p node state' str) (some p) (some key)
          ≡ elim (find_arg s (some p) (some key)) [
            | none ↦ none
            | some a ↦ some (told node state' str a key)
          ])
      × ((q : ℕ) → (p == q) ≡ false → (set_arg_at s p node state' str).cell q ≡ s.cell q)
unfolding set_arg_at find_arg arglist_find
set_arg_at-reads s p node state' str al c = (
  λ key. rw (c) (ground (arith, hash_find-set_arg al.args node key state' str)),
  λ q d. rw (c, set_arg_at) (rw (d) refl),
)

-- If a setplugstate finds a plug name, a status text, the plug of that name, and the plug's node,
-- then it is finished, and in the ArgList of its action the Arg of that node has the status text and
-- the state of the first interpretation that matches it; the Args of all other nodes, and the
-- ArgLists of other commands, are unchanged.
pub process_setplugstate_tells :
    (env : Env) (x : Exec) (plug_name : Option CStr) (plug_mp stat_mp : Option ℕ)
    (interps : List Interp) (name str node : CStr) (plug : Plug) (p : ℕ) (al : ArgList)
    → (target_name x.dev.xmatch x.e.plugs plug_name plug_mp).0 ≡ some name
    → (xregex_match_sub_strdup x.dev.xmatch stat_mp).0 ≡ some str
    → find_plug x.dev name ≡ some plug
    → plug.node ≡ some node
    → x.act.arglist ≡ some p
    → x.w.args.cell p ≡ some al
    → let x' = process_setplugstate env x plug_name plug_mp stat_mp interps in
      let state' = interp_state env.regexec interps str in
      (x'.finished ≡ true)
      × ((key : CStr)
          → find_arg x'.w.args (some p) (some key) ≡ elim (find_arg x.w.args (some p) (some key)) [
            | none ↦ none
            | some a ↦ some (told node state' str a key)
          ])
      × ((q : ℕ) → (p == q) ≡ false → x'.w.args.cell q ≡ x.w.args.cell q)
unfolding process_setplugstate
process_setplugstate_tells env x plug_name plug_mp stat_mp interps name str node plug p al n s f h a
      c =
    let state' = interp_state env.regexec interps str in
    let args' =
      setplugstate-args env x interps plug_name plug_mp stat_mp name str node plug p n s f h a in
    let (reads, others) = set_arg_at-reads x.w.args p node state' str al c in
    (
      refl,
      λ key. ap (λ w. find_arg w (some p) (some key)) args' ∙ reads key,
      λ q d. ap (λ (w : ArgStore). w.cell q) args' ∙ others q d,
    )
