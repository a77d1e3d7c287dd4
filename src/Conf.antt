-- ===== src/Conf.antt =====
-- powermand/parse_util.c: the nodes and the aliases of the configuration.
pub mod Aliases
mod Tests
use powerman.Base.{
  ℕ, zero, suc, ◌+◌, ◌≡◌, Bool, true, false, ◌&&◌, not, List, [], ◌∷◌, ◌++◌, Option, none, some,
  if◌then◌else◌, is_some, is_empty, length,
}
use powerman.CStr.{CStr, str_eq}
use powerman.Hostlist.{Hostlist}

pub record Alias : Type 0 where
  pub name : CStr
  pub hl : List CStr

-- conf_nodes and conf_aliases, and how many listen ports conf_listen has.
pub record Conf : Type 0 where
  pub nodes : List CStr
  pub aliases : List Alias
  pub listen : List CStr

unfoldable pub conf_node_exists : Hostlist → List CStr → CStr → Bool
conf_node_exists hostlist nodes node = is_some (hostlist.find nodes node)

-- The loop of conf_addnodes over the new nodes: it stops at the first that is there already.
unfoldable pub add_nodes : Hostlist → List CStr → List CStr → List CStr × Bool
unfolding conf_node_exists
add_nodes hostlist nodes [] = (nodes, true)
add_nodes hostlist nodes (node ∷ new) =
    if conf_node_exists hostlist nodes node
    then (nodes, false)
    else add_nodes hostlist (hostlist.push nodes node) new

-- The configuration, and the result; none when hostlist_create rejects the text, and the program
-- goes on with a NULL pointer.
unfoldable pub conf_addnodes : Hostlist → Conf → CStr → Option (Conf × Bool)
unfolding add_nodes
conf_addnodes hostlist conf nodelist = elim (hostlist.create nodelist) [
  | none ↦ none
  | some hl ↦
      let (nodes', res) = add_nodes hostlist conf.nodes hl in
      some (record conf { nodes = nodes' }, res)
]

-- list_find_first(conf_aliases, _alias_match, host)
unfoldable pub find_alias : List Alias → CStr → Option Alias
find_alias [] name = none
find_alias (a ∷ aliases) name = if str_eq a.name name then some a else find_alias aliases name

-- The first host that the iterator yields which is an alias.
unfoldable pub next_alias : List Alias → List CStr → Option (CStr × Alias)
unfolding find_alias
next_alias aliases [] = none
next_alias aliases (host ∷ hl) = elim (find_alias aliases host) [
  | some a ↦ some (host, a)
  | none ↦ next_alias aliases hl
]

-- The loop of conf_exp_aliases, with its hostlist and `newhosts`: after an alias the iterator is
-- reset. none when the fuel runs out.
unfoldable pub exp_loop :
    ℕ → Hostlist → List Alias → List CStr → List CStr → Option (List CStr × List CStr)
unfolding next_alias
exp_loop zero hostlist aliases hl newhosts = none
exp_loop (suc fuel) hostlist aliases hl newhosts = elim (next_alias aliases hl) [
  | none ↦ some (hl, newhosts)
  | some (host, a) ↦
      exp_loop fuel hostlist aliases (hostlist.delete_host hl host)
        (hostlist.push_list newhosts a.hl)
]

-- The hostlist that conf_exp_aliases leaves.
unfoldable pub conf_exp_aliases : ℕ → Hostlist → List Alias → List CStr → Option (List CStr)
unfolding exp_loop
conf_exp_aliases fuel hostlist aliases hl = elim (exp_loop fuel hostlist aliases hl []) [
  | none ↦ none
  | some (hl', newhosts) ↦ some (hostlist.push_list hl' newhosts)
]

unfoldable pub alias_create : Hostlist → List Alias → CStr → CStr → Option Alias
unfolding find_alias
alias_create hostlist aliases name hosts =
    if is_some (find_alias aliases name) then none else elim (hostlist.create hosts) [
      | none ↦ none
      | some hl ↦ some (record { name = name; hl = hl })
    ]

unfoldable pub conf_add_alias : Hostlist → Conf → CStr → CStr → Conf × Bool
unfolding alias_create
conf_add_alias hostlist conf name hosts = elim (alias_create hostlist conf.aliases name hosts) [
  | none ↦ (conf, false)
  | some a ↦ (record conf { aliases = a ∷ conf.aliases }, true)
]

-- Whether all hosts of an alias are nodes.
unfoldable pub hosts_exist : Hostlist → List CStr → List CStr → Bool
unfolding conf_node_exists
hosts_exist hostlist nodes [] = true
hosts_exist hostlist nodes (host ∷ hl) =
    conf_node_exists hostlist nodes host && hosts_exist hostlist nodes hl

unfoldable pub aliases_exist : Hostlist → List CStr → List Alias → Bool
unfolding hosts_exist
aliases_exist hostlist nodes [] = true
aliases_exist hostlist nodes (a ∷ aliases) =
    hosts_exist hostlist nodes a.hl && aliases_exist hostlist nodes aliases

-- _validate_config, with the default port that it adds.
unfoldable pub validate_config : Hostlist → CStr → Conf → Conf × Bool
unfolding aliases_exist
validate_config hostlist dflt conf = (
  record conf { listen = if is_empty conf.listen then dflt ∷ [] else conf.listen },
  aliases_exist hostlist conf.nodes conf.aliases && not (is_empty conf.nodes),
)
