-- ===== src/Arglist.antt =====
-- powermand/arglist.c: the target nodes of a command, and what the devices say of them. An ArgList
-- is shared by the command and its actions, so it lives in a store and is named by its place there.
pub mod Nodes
mod Tests
use powerman.Base.{
  ℕ, zero, suc, ◌+◌, ◌-◌, ◌≡◌, Bool, true, false, List, [], ◌∷◌, ◌++◌, Option, none, some,
  if◌then◌else◌, ◌==◌,
}
use powerman.CStr.{CStr, str_eq}

pub data InterpState : Type 0 where
  st_unknown st_off st_on : InterpState

pub record Arg : Type 0 where
  pub node : CStr
  pub val : Option CStr
  pub state : InterpState

-- `args` is the hash table, `hl` the list of hosts.
pub record ArgList : Type 0 where
  pub args : List Arg
  pub hl : List CStr
  pub refcount : ℕ

unfoldable pub create_arg : CStr → Arg
create_arg node = record { node = node; val = none; state = st_unknown }

-- hash_find: NULL if no item has the key.
unfoldable pub hash_find : List Arg → CStr → Option Arg
hash_find [] key = none
hash_find (a ∷ h) key = if str_eq a.node key then some a else hash_find h key

-- hash_insert: nothing is inserted if the key is there already.
unfoldable pub hash_insert : List Arg → Arg → List Arg
unfolding hash_find
hash_insert h a = elim (hash_find h a.node) [ none ↦ h ++ a ∷ [] | some _ ↦ h ]

-- The loop of arglist_create over the hosts.
unfoldable pub insert_args : List Arg → List CStr → List Arg
unfolding hash_insert create_arg
insert_args h [] = h
insert_args h (node ∷ nodes) = insert_args (hash_insert h (create_arg node)) nodes

unfoldable pub arglist_create : List CStr → ArgList
unfolding insert_args
arglist_create hl = record { args = insert_args [] hl; hl = hl; refcount = 1 }

-- `node` is none for NULL.
unfoldable pub arglist_find : ArgList → Option CStr → Option Arg
unfolding hash_find
arglist_find al none = none
arglist_find al (some node) = hash_find al.args node

-- What a writer does with the Arg that arglist_find returns: `arg->state = state` and
-- `arg->val = xstrdup(str)`, on the first item with the key.
unfoldable pub set_arg : List Arg → CStr → InterpState → CStr → List Arg
set_arg [] node state str = []
set_arg (a ∷ h) node state str =
    if str_eq a.node node
    then record a { state = state; val = some str } ∷ h
    else a ∷ set_arg h node state str

-- arglist_next, until it returns NULL, from an iterator on the hosts: it ends at the first host
-- that the table does not hold.
unfoldable pub arglist_iterate : List Arg → List CStr → List Arg
unfolding hash_find
arglist_iterate h [] = []
arglist_iterate h (node ∷ nodes) =
    let rest = arglist_iterate h nodes in elim (hash_find h node) [ none ↦ [] | some a ↦ a ∷ rest ]

-- The heap of ArgLists: a place that is not in use, or was freed, holds none.
pub record ArgStore : Type 0 where
  pub next : ℕ
  pub cell : ℕ → Option ArgList

abbrev pub update : (ℕ → Option ArgList) → ℕ → Option ArgList → ℕ → Option ArgList
update f p v q = if p == q then v else f q

unfoldable pub alloc : ArgStore → ArgList → ArgStore
alloc s al = record { next = s.next + 1; cell = update s.cell s.next (some al) }

-- `--arglist->refcount == 0`; on a place that was freed nothing is left to count.
unfoldable pub arglist_unlink : ArgStore → ℕ → ArgStore
arglist_unlink s p = elim (s.cell p) [
  | none ↦ s
  | some al ↦ record s {
    cell =
        update s.cell p
          (if al.refcount - 1 == 0 then none else some (record al { refcount = al.refcount - 1 }));
  }
]

unfoldable pub arglist_link : ArgStore → ℕ → ArgStore
arglist_link s p = elim (s.cell p) [
  | none ↦ s
  | some al ↦ record s { cell = update s.cell p (some (record al { refcount = al.refcount + 1 })) }
]

-- A write through the pointer.
unfoldable pub set_arg_at : ArgStore → ℕ → CStr → InterpState → CStr → ArgStore
unfolding set_arg
set_arg_at s p node state str = elim (s.cell p) [
  | none ↦ s
  | some al ↦ record s {
    cell = update s.cell p (some (record al { args = set_arg al.args node state str }));
  }
]
