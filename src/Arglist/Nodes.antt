-- ===== src/Arglist/Nodes.antt =====
-- What arglist_create, arglist_find and the iterator give.
use powerman.Base.{
  ◌≡◌, refl, ◌∙◌, inl, inr, Bool, true, false, ◌||◌, List, [], ◌∷◌, ◌++◌, map, none, some, arith,
  if◌then◌else◌, is_some, Option-cases,
}
use powerman.CStr.{CStr, str_eq, str_eq_of, str_eq_self, contains}
use powerman.Arglist.{
  InterpState, Arg, create_arg, hash_find, hash_insert, insert_args, arglist_create, arglist_find,
  set_arg, arglist_iterate,
}

hash_find-append :
    (h : List Arg) (a : Arg) (key : CStr)
    → hash_find (h ++ a ∷ []) key ≡ elim (hash_find h key) [
      | none ↦ if str_eq a.node key then some a else none
      | some b ↦ some b
    ]
unfolding hash_find
hash_find-append [] a key = refl
hash_find-append (b ∷ h) a key = ground (arith, hash_find-append h a key)

-- The table holds a fresh Arg under each key of a list.
abbrev pub Fresh : List Arg → (CStr → Bool) → Type 0
Fresh h p = (key : CStr) → hash_find h key ≡ (if p key then some (create_arg key) else none)

hash_insert-Fresh :
    (h : List Arg) (p : CStr → Bool) (node : CStr)
    → Fresh h p
    → Fresh (hash_insert h (create_arg node)) (λ key. p key || str_eq node key)
unfolding hash_insert create_arg
hash_insert-Fresh h p node f key =
    ground (arith, f key, f node, hash_find-append h (create_arg node) key, str_eq_of node key)

insert_args-Fresh :
    (h : List Arg) (p : CStr → Bool) (nodes : List CStr)
    → Fresh h p
    → Fresh (insert_args h nodes) (λ key. p key || contains key nodes)
unfolding insert_args contains
insert_args-Fresh h p [] f key = ground (arith, f key)
insert_args-Fresh h p (node ∷ nodes) f key =
    insert_args-Fresh (hash_insert h (create_arg node)) (λ k. p k || str_eq node k) nodes
      (hash_insert-Fresh h p node f) key
    ∙ ground arith

pub hash_find-set_arg :
    (h : List Arg) (node key : CStr) (state : InterpState) (str : CStr)
    → hash_find (set_arg h node state str) key ≡ elim (hash_find h key) [
      | none ↦ none
      | some a ↦ some (if str_eq node key then record a { state = state; val = some str } else a)
    ]
unfolding hash_find set_arg
hash_find-set_arg [] node key state str = refl
hash_find-set_arg (a ∷ h) node key state str = ground (
  arith,
  hash_find-set_arg h node key state str,
  str_eq_of a.node node,
  str_eq_of a.node key,
  str_eq_self key,
  str_eq_of node key,
)

-- arglist_create makes an Arg for each host of the list, in the state "unknown" and with no value,
-- and for no other node; a NULL node is never found.
pub arglist_find-create :
    (hl : List CStr) (node : CStr)
    → (arglist_find (arglist_create hl) (some node)
        ≡ (if contains node hl then some (create_arg node) else none))
      × (arglist_find (arglist_create hl) none ≡ none)
unfolding arglist_create arglist_find hash_find
arglist_find-create hl node = (insert_args-Fresh [] (λ _. false) hl (λ _. refl) node, refl)

hash_find-node : (h : List Arg) (key : CStr) (a : Arg) → hash_find h key ≡ some a → a.node ≡ key
unfolding hash_find
hash_find-node [] key a e = cc
hash_find-node (b ∷ h) key a e = ground (arith, hash_find-node h key a, str_eq_of b.node key)

map-iterate :
    (h : List Arg) (nodes : List CStr)
    → ((key : CStr) → contains key nodes ≡ true → is_some (hash_find h key) ≡ true)
    → map (λ a. a.node) (arglist_iterate h nodes) ≡ nodes
unfolding arglist_iterate contains
map-iterate h [] c = refl
map-iterate h (node ∷ nodes) c =
    let ih = map-iterate h nodes (λ key e. c key (ground arith)) in
    elim (Option-cases (hash_find h node)) [
      | inl e ↦ absurd (ground (arith, e, c node, str_eq_self node))
      | inr (a, e) ↦ rw (e, arglist_iterate) (ground (arith, ih, hash_find-node h node a e))
    ]

-- A write to an Arg.
pub record Write : Type 0 where
  pub node : CStr
  pub state : InterpState
  pub str : CStr

unfoldable pub set_args : List Arg → List Write → List Arg
set_args h [] = h
set_args h (w ∷ ws) = set_args (set_arg h w.node w.state w.str) ws

set_args_found :
    (h : List Arg) (ws : List Write) (key : CStr)
    → is_some (hash_find (set_args h ws) key) ≡ is_some (hash_find h key)
unfolding set_args
set_args_found h [] key = refl
set_args_found h (w ∷ ws) key =
    set_args_found (set_arg h w.node w.state w.str) ws key
    ∙ ground (arith, hash_find-set_arg h w.node key w.state w.str)

-- Whatever the devices wrote into the ArgList, its iterator visits every host of the command, in
-- the order of the command's hosts, and nothing else.
pub arglist_iterate-hosts :
    (hl : List CStr) (ws : List Write)
    → let al = arglist_create hl in
      map (λ (a : Arg). a.node) (arglist_iterate (set_args al.args ws) al.hl) ≡ hl
unfolding arglist_create
arglist_iterate-hosts hl ws = map-iterate (set_args (insert_args [] hl) ws) hl λ key c.
    set_args_found (insert_args [] hl) ws key
    ∙ rw (insert_args-Fresh [] (λ _. false) hl (λ _. refl) key, c) refl
