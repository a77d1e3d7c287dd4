-- ===== src/Libpowerman/Nodes.antt =====
-- What pm_node_iterator_create makes of the daemon's reply to a query of its nodes.
use mathlib.Core.List.{reverse, reverse-append, map-append}
use powerman.Base.{
  ℕ, ◌≤◌, ◌≡◌, refl, ap, ◌∙◌, true, false, List, [], ◌∷◌, ◌++◌, map, none, some, arith, All,
  if◌then◌else◌, length, is_empty,
}
use powerman.CStr.{CStr, codes, isspace}
use powerman.Conf.{Conf}
use powerman.Hostlist.{Hostlist}
use powerman.Client.{Response}
use powerman.Client.Wire.{Build, cp_eol, response_lines, wire}
use powerman.Client.Input.{strip_left, scan_word, scan_arg, query_nodes_reply}
use powerman.Libpowerman.{pm_esuccess}
use powerman.Libpowerman.Lines.{IsLine, with_eol}
use powerman.Libpowerman.Codes.{IsClean, all_lines, first_verdict}
use powerman.Libpowerman.Handle.{
  Connection, is_pm_success, lines, err, chunk, add_node, collect_nodes, nodes_of,
  pm_node_iterator_create,
}
use powerman.Libpowerman.Transfer.{
  Arrives, joined, capacity, request, outcome, server_command-outcome,
}

-- A name that "%s" takes whole: not empty, and with no white space.
abbrev pub IsWord : CStr → Type 0
IsWord s = (is_empty s ≡ false) × All (λ c. isspace c ≡ false) s

scan_word-eol : (s : CStr) → All (λ c. isspace c ≡ false) s → scan_word (s ++ cp_eol) ≡ s
unfolding scan_word
scan_word-eol [] h = unfold isspace in refl
scan_word-eol (c ∷ s) h = ground (arith, scan_word-eol s h.1)

strip_left-word : (s : CStr) → IsWord s → strip_left (32 ∷ (s ++ cp_eol)) ≡ s ++ cp_eol
unfolding strip_left isspace
strip_left-word [] h = cc
strip_left-word (c ∷ s) h = ground (arith, h.1.0)

scan_arg-node :
    (s : CStr) → IsWord s → scan_arg (codes "307 " ++ (s ++ cp_eol)) (codes "307") ≡ some s
unfolding scan_arg
scan_arg-node s h =
    let word = ap scan_word (strip_left-word s h) ∙ scan_word-eol s h.1 in
    ap (λ w. if is_empty w then none else some w) word ∙ rw h.0 refl

pub IsWord-IsLine : (s : CStr) → All (λ c. isspace c ≡ false) s → IsLine s
IsWord-IsLine [] h = tt
IsWord-IsLine (c ∷ s) h = (unfold isspace in ground arith, IsWord-IsLine s h.1)

collect_nodes-append :
    (acc xs ys : List CStr) → collect_nodes acc (xs ++ ys) ≡ collect_nodes (collect_nodes acc xs) ys
unfolding collect_nodes
collect_nodes-append acc [] ys = refl
collect_nodes-append acc (x ∷ xs) ys = collect_nodes-append (add_node acc x) xs ys

abbrev replies : List CStr → List Response
replies nodes = map Response.info_xnodes nodes ++ Response.rsp_qry_complete ∷ []

collect_nodes-line :
    (b : Build) (n : CStr) (nodes : List CStr)
    → IsWord n
    → collect_nodes nodes (reverse (map with_eol (response_lines b (Response.info_xnodes n))))
      ≡ n ∷ nodes
unfolding response_lines collect_nodes
collect_nodes-line b n nodes h =
    ap (λ o. elim o [ none ↦ nodes | some node ↦ node ∷ nodes ]) (scan_arg-node n h)

collect_nodes-replies :
    (b : Build) (nodes : List CStr)
    → All IsWord nodes
    → collect_nodes [] (reverse (map with_eol (all_lines b (replies nodes)))) ≡ nodes
collect_nodes-replies b [] h = unfold response_lines collect_nodes scan_arg in refl
collect_nodes-replies b (n ∷ nodes) h =
    let more = map with_eol (all_lines b (replies nodes)) in
    let line = map with_eol (response_lines b (Response.info_xnodes n)) in
    ap (λ l. collect_nodes [] (reverse l))
      (map-append with_eol (response_lines b (Response.info_xnodes n))
        (all_lines b (replies nodes)))
    ∙ ap (collect_nodes []) (reverse-append line more)
    ∙ collect_nodes-append [] (reverse more) (reverse line)
    ∙ ap (λ acc. collect_nodes acc (reverse line)) (collect_nodes-replies b nodes h.1)
    ∙ collect_nodes-line b n nodes h.0

first_verdict-replies : (nodes : List CStr) → first_verdict (replies nodes) ≡ pm_esuccess
first_verdict-replies [] = refl
first_verdict-replies (n ∷ nodes) = first_verdict-replies nodes

replies-IsClean :
    (b : Build) (nodes : List CStr) → All IsWord nodes → All (IsClean b) (replies nodes)
replies-IsClean b [] h = unfold response_lines in ground arith
replies-IsClean b (n ∷ nodes) h = (
  unfold response_lines in (refl, ((refl, (refl, (refl, (refl, IsWord-IsLine n h.0.1)))), tt)),
  replies-IsClean b nodes h.1,
)

nodes_of-outcome :
    (b : Build) (nodes : List CStr)
    → All IsWord nodes
    → nodes_of (outcome b (replies nodes)) ≡ (nodes, some pm_esuccess)
unfolding nodes_of
nodes_of-outcome b nodes h =
    let resp = reverse (map with_eol (all_lines b (replies nodes))) in
    ap (λ e. nodes_of (if is_pm_success e then lines resp else err e)) (first_verdict-replies nodes)
    ∙ ap (λ ns. (ns, some pm_esuccess)) (collect_nodes-replies b nodes h)

-- The node iterator, when the daemon answers with its nodes (the names that it sorted), one to a
-- response: it yields those nodes, in the daemon's order. The bytes of the request can be written; after each read
-- of the reply but the last there are at least as many bytes as the prompt has, and they do not end in
-- the prompt; and no name is empty or has white space.
pub pm_node_iterator_create-nodes :
    (b : Build) (hl : Hostlist) (conf : Conf) (conn : Connection) (cs : List (List ℕ))
    → length (request (codes "nodes") []) ≤ capacity conn.writes
    → conn.reads ≡ map chunk cs
    → Arrives [] cs
    → joined cs ≡ wire b ((query_nodes_reply hl conf true).0 ++ Response.prompt ∷ [])
    → All IsWord (hl.sort conf.nodes)
    → let (nodes, e, conn') = pm_node_iterator_create (some conn) in
      (nodes ≡ hl.sort conf.nodes) × (e ≡ some pm_esuccess)
unfolding query_nodes_reply pm_node_iterator_create
pm_node_iterator_create-nodes b hl conf conn cs fits reads split whole names =
    let nodes = hl.sort conf.nodes in
    let out =
      server_command-outcome b conn (codes "nodes") [] cs (replies nodes) fits reads split whole
        (replies-IsClean b nodes names) in
    let all = ap nodes_of out.0 ∙ nodes_of-outcome b nodes names in
    (ap (λ x. x.0) all, ap (λ x. x.1) all)
