-- ===== src/Client/Input/Validated.antt =====
-- The hosts that a request may name.
use powerman.Base.{
  ◌≡◌, refl, inl, inr, true, false, List, [], ◌∷◌, ◌++◌, Option, none, some, arith, is_empty,
  length, Option-cases, Bool-cases, All,
}
use powerman.CStr.{CStr}
use powerman.Hostlist.{Hostlist}
use powerman.Conf.{Conf, conf_node_exists}
use powerman.Conf.Aliases.{plain_hosts, expansions, conf_exp_aliases_expands}
use powerman.Client.{Response}
use powerman.Client.Input.{expanded, bad_hosts, hostlist_create_validated}

abbrev pub Exist : Hostlist → Conf → List CStr → Type 0
Exist hostlist conf hl = All (λ host. conf_node_exists hostlist conf.nodes host ≡ true) hl

append-not_empty : (hl : List CStr) (host : CStr) → is_empty (hl ++ host ∷ []) ≡ false
append-not_empty [] host = refl
append-not_empty (h ∷ hl) host = refl

bad_hosts-kept :
    (hostlist : Hostlist) (conf : Conf) (acc hl : List CStr)
    → is_empty (bad_hosts hostlist conf.nodes acc hl) ≡ true
    → (is_empty acc ≡ true) × Exist hostlist conf hl
unfolding bad_hosts
bad_hosts-kept hostlist conf acc [] h = (h, tt)
bad_hosts-kept hostlist conf acc (host ∷ hl) h =
    elim (Bool-cases (conf_node_exists hostlist conf.nodes host)) [
      | inl e ↦ let (k, rest) = bad_hosts-kept hostlist conf acc hl (ground arith) in (k, (e, rest))
      | inr e ↦
          let (k, rest) =
            bad_hosts-kept hostlist conf (hostlist.push_host acc host) hl (ground arith) in
          absurd (ground (arith, k, hostlist.push_host_appends acc host, append-not_empty acc host))
    ]

expanded_lem :
    (hostlist : Hostlist) (conf : Conf) (hl : List CStr)
    → expanded hostlist conf hl ≡ plain_hosts conf.aliases hl ++ expansions conf.aliases hl
unfolding expanded
expanded_lem hostlist conf hl =
    rw (conf_exp_aliases_expands hostlist conf.aliases hl, expanded) refl

-- The result of a request's text: no hosts and one response, or hosts and none, which are those of
-- the text with the aliases expanded, and nodes of the configuration.
pub Validated : Hostlist → Conf → CStr → Option (List CStr) × List Response → Type 0
Validated hostlist conf str (none, rs) = length rs ≡ 1
Validated hostlist conf str (some hl, rs) =
    (rs ≡ [])
    × Exist hostlist conf hl
    × ((given : List CStr) × (hostlist.create str ≡ some given)
        × (hl ≡ plain_hosts conf.aliases given ++ expansions conf.aliases given))

-- The hosts that a request gets are those of its text with the aliases expanded, and each of them
-- is a node of the configuration; nothing is reported then. Otherwise the request gets no hosts,
-- and the client gets one response.
pub hostlist_create_validated_exists :
    (hostlist : Hostlist) (conf : Conf) (str : CStr)
    → Validated hostlist conf str (hostlist_create_validated hostlist conf str)
unfolding hostlist_create_validated Validated
hostlist_create_validated_exists hostlist conf str = elim (Option-cases (hostlist.create str)) [
  | inl e ↦ rw (e, hostlist_create_validated) refl
  | inr (given, e) ↦
      let hl = expanded hostlist conf given in
      let bad = bad_hosts hostlist conf.nodes [] hl in
      elim (Bool-cases (is_empty bad)) [
        | inl b ↦
            let (_, ok) = bad_hosts-kept hostlist conf [] hl b in
            rw (e, hostlist_create_validated, b)
              (refl, ok, (given, e, expanded_lem hostlist conf given))
        | inr b ↦ rw (e, hostlist_create_validated, b) refl
      ]
]
