-- ===== src/Spf/Topology.antt =====
-- graph.h, net.h and net.c: the interfaces of the nodes, their links and the neighbours behind them.
use networking_protocol_deve.Base.{
  ℕ, ◌+◌, ◌≡◌, Bool, true, false, ◌&&◌, not, Option, none, some, List, [], ◌∷◌, if◌then◌else◌, ◌⊎◌,
}
use networking_protocol_deve.Base.CString.{Chars}
use networking_protocol_deve.Net.{Interface, is_l2_mode}
use networking_protocol_deve.Net.Ip.{is_same_subnet}

-- An interface `oif` with its link: the interface at the other end, the node `nbr` that this is
-- attached to, and the cost of the link.
pub record Link : Type 0 where
  pub oif : ℕ
  pub intf : Interface
  pub other_intf : Interface
  pub nbr : ℕ
  pub cost : ℕ

-- The nodes of the graph, the slots of each, and the loopback addresses.
pub record Topo : Type 0 where
  pub node_list : List ℕ
  pub intf : ℕ → List (Option Link)
  pub lb_addr : ℕ → Chars

-- the links that `ITERATE_NODE_NBRS` comes to, in its order
unfoldable pub filled : List (Option Link) → List Link
filled [] = []
filled (none ∷ slots) = filled slots
filled (some l ∷ slots) = l ∷ filled slots

unfoldable pub node_nbrs : Topo → ℕ → List Link
node_nbrs topo node = filled (topo.intf node)

unfoldable pub is_interface_l3_bidirectional : (ℕ → ℕ) → Link → Bool
is_interface_l3_bidirectional shift_32 l =
    let a = l.intf in
    let b = l.other_intf in
    if is_l2_mode a.intf_l2_mode
    then false
    else if not a.is_ipadd_config
    then false
    else if not (a.is_up && b.is_up)
    then false
    else if is_l2_mode b.intf_l2_mode
    then false
    else if not b.is_ipadd_config
    then false
    else is_same_subnet shift_32 a.ip_add a.mask b.ip_add
      && is_same_subnet shift_32 b.ip_add b.mask a.ip_add

abbrev pub In : Link → List Link → Type 0
In l [] = ⊥
In l (x ∷ xs) = (l ≡ x) ⊎ In l xs

-- From `root` links in both directions lead to a node, at a total cost.
pub data Walk (shift_32 : ℕ → ℕ) (topo : Topo) (root : ℕ) : ℕ → ℕ → Type 0 where
  here : Walk shift_32 topo root root 0
  step :
      {u c : ℕ} (l : Link)
      → Walk shift_32 topo root u c
      → In l (node_nbrs topo u)
      → is_interface_l3_bidirectional shift_32 l ≡ true
      → Walk shift_32 topo root l.nbr (c + l.cost)
