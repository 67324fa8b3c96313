-- ===== src/Tests/IsisTests.antt =====
-- Runs of the IS-IS adjacency code, and the theorems about it at concrete adjacencies.
use mathlib.Core.List.{Permᴰ}
use networking_protocol_deve.Base.{
  ℕ, map, ◌==◌, if◌then◌else◌, Bool-cases, inl, inr, arith, put, Option, ◌≡◌, refl, true, false,
  none, some, List, [], ◌∷◌, replicate, ◌⊎◌, All,
}
use networking_protocol_deve.Isis.Node.{IsisNode}
use networking_protocol_deve.Isis.Adjacency.{
  adj_state_down, adj_state_init, Adjacency, isis_get_next_adj_state_on_receiving_next_hello,
  isis_timer_expire_down_adjacency_cb,
}
use networking_protocol_deve.Isis.Hello.{
  Tlv, receive_tlvs, hello_from_known, memcmp_eq, read_uint32,
}
use networking_protocol_deve.Isis.States.{IsPhased, Reaches}
use networking_protocol_deve.Isis.Lspdb.{LspHdr, LspPkt, LspNode, isis_process_lsp_pkt}
use networking_protocol_deve.Isis.Newest.{IsDb, rank}
use networking_protocol_deve.Isis.Arrival.{
  process_all, newest, process_all-newest, process_all-any_order,
}
use networking_protocol_deve.Isis.Receive.{IsTimed, known_total, receive_total, expire_total}

abbrev own_lsp : LspPkt
own_lsp = record {
  hdr = record { seq_no = 4; rtr_id = 1; flags = 1; tlvs = [] };
  flood_eligibility = true;
  installed_in_db = true;
}

-- a node with a database that has its own LSP
abbrev own_node : LspNode
own_node = record {
  lo_addr = 1;
  seq_no = 4;
  lspdb = λ q. if q == 1 then some own_lsp else none;
  self_lsp_pkt = some own_lsp;
  lsp_pkt_gen_task = false;
  lsp_gen_disabled = false;
  reconciliation_in_progress = false;
  calls = [];
}

abbrev lsp : ℕ → ℕ → ℕ × LspHdr
lsp id seq = (2, record { seq_no = seq; rtr_id = id; flags = 1; tlvs = 111 ∷ 0 ∷ [] })

abbrev lsps : List (ℕ × LspHdr)
lsps = lsp 7 5 ∷ lsp 7 3 ∷ lsp 1 9 ∷ []

abbrev swapped : List (ℕ × LspHdr)
swapped = lsp 7 3 ∷ lsp 7 5 ∷ lsp 1 9 ∷ []

own_node_IsDb : IsDb own_node.lspdb
own_node_IsDb q o e = elim (Bool-cases (q == 1)) [
  | inl s ↦ (ground (arith, s, e), ground (arith, s, e))
  | inr s ↦ absurd (ground (arith, s, e))
]

abbrev node : IsisNode
node = record {
  adjacency_up_count = 0;
  on_demand_flooding = true;
  lsp_flood_interval = 1200;
  layer2_mapping = true;
  reconciliation_in_progress = false;
  reconciliation_timer = false;
  calls = [];
}

abbrev in_init : Adjacency
in_init = record {
  nbr_name = b'R' ∷ b'2' ∷ replicate 14 0;
  nbr_intf_ip = 167837954;
  nbr_mac = 1 ∷ 2 ∷ 3 ∷ 4 ∷ 5 ∷ 6 ∷ [];
  nbr_rtr_id = 2046886146;
  remote_if_index = 7;
  adj_state = adj_state_init;
  hold_time = 6;
  cost = 10;
  expiry_timer = some 6000;
  delete_timer = none;
  uptime = 0;
}

abbrev tlv : ℕ → List ℕ → ℕ → Tlv
tlv type value len = record { type = type; len = len; value = value }

abbrev hello : List Tlv
hello =
    tlv 137 (b'R' ∷ b'2' ∷ replicate 14 0) 16
    ∷ tlv 134 (2 ∷ 1 ∷ 1 ∷ 122 ∷ []) 4
    ∷ tlv 5 (6 ∷ 0 ∷ 0 ∷ 0 ∷ []) 4
    ∷ tlv 131 (1 ∷ 2 ∷ 3 ∷ 4 ∷ 5 ∷ 6 ∷ []) 6
    ∷ []

known_total_example :
    (n' : IsisNode) × (a' : Adjacency) × (hello_from_known false 100 node in_init hello
      ≡ some (n', a'))
    × IsTimed a'
    × IsPhased n'.adjacency_up_count n'
    × ((a'.adj_state ≡ adj_state_down)
        ⊎ ((a'.adj_state ≡ isis_get_next_adj_state_on_receiving_next_hello adj_state_init)
            × (a'.nbr_rtr_id ≡ 2046886146)
            × (a'.nbr_intf_ip ≡ 167837954)
            × (a'.nbr_mac ≡ 1 ∷ 2 ∷ 3 ∷ 4 ∷ 5 ∷ 6 ∷ [])))
unfolding read_uint32
known_total_example =
    known_total false 100 node in_init hello (refl, refl) (refl, refl)
      (refl, (refl, (refl, (refl, tt)))) refl

receive_total_example :
    (n' : IsisNode) × (l' : List Adjacency) × (receive_tlvs false 100 node
        (in_init ∷ [])
        2046886146
        hello
      ≡ some (n', l'))
    × All IsTimed l'
    × IsPhased n'.adjacency_up_count n'
unfolding read_uint32
receive_total_example =
    receive_total false 100 node (in_init ∷ []) 2046886146 hello (refl, refl) ((refl, refl), tt)
      (refl, (refl, (refl, (refl, tt)))) refl

expire_total_example :
    Reaches false 100 in_init adj_state_down 65535
      (isis_timer_expire_down_adjacency_cb false 100 node in_init)
expire_total_example = expire_total false 100 node in_init (refl, refl) (refl, refl) refl

process_all-newest_example :
    (n' : LspNode) × (process_all own_node lsps ≡ some n')
    × IsDb n'.lspdb
    × ((q : ℕ) → (q == 1) ≡ false → rank (n'.lspdb q) ≡ newest q lsps (rank (own_node.lspdb q)))
process_all-newest_example =
    process_all-newest own_node lsps own_node_IsDb (own_lsp, refl, refl) (refl, (refl, (refl, tt)))

process_all-any_order_example :
    (a : LspNode) × (b : LspNode) × (process_all own_node lsps ≡ some a)
    × (process_all own_node swapped ≡ some b)
    × ((q : ℕ) → (q == 1) ≡ false → rank (a.lspdb q) ≡ rank (b.lspdb q))
process_all-any_order_example =
    process_all-any_order own_node {l' = swapped} own_node_IsDb (own_lsp, refl, refl)
      (refl, (refl, (refl, tt))) (Permᴰ.swap refl refl)

-- The newer one of two LSPs stays. Both ask for an on-demand flood, which takes the node's own LSP from
-- sequence number 4 to 6, and a foreign copy of it with 9 is not installed.
newest_stays : map (λ q. newest q swapped 0) (7 ∷ 1 ∷ 8 ∷ []) ≡ 6 ∷ 10 ∷ 0 ∷ []
unfolding newest
newest_stays = refl

abbrev read_back : Option LspNode → Option (List ℕ × ℕ)
read_back none = none
read_back (some n) = some (map (λ q. rank (n.lspdb q)) (7 ∷ 1 ∷ 8 ∷ []), n.seq_no)

arrivals : read_back (process_all own_node swapped) ≡ some (6 ∷ 7 ∷ 0 ∷ [], 9)
unfolding process_all isis_process_lsp_pkt put memcmp_eq
arrivals = refl
