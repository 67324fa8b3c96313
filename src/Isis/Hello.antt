-- ===== src/Isis/Hello.antt =====
-- Layer5/isis/isis_adjacency.c and isis_pkt.c: the hello packets and what they do to the adjacencies.
use networking_protocol_deve.Base.{
  ℕ, zero, suc, ◌+◌, ◌*◌, ◌/◌, ◌%◌, ◌^◌, Bool, true, false, ◌&&◌, not, Option, none, some, List, [],
  ◌∷◌, ◌++◌, ◌==◌, ltb, if◌then◌else◌, get_or, take, drop, replicate, ◌>>=◌,
}
use networking_protocol_deve.Net.Tlv.{tlv_buffer_get_particular_tlv}
use networking_protocol_deve.Isis.Node.{
  IsisNode, call, schedule_lsp_pkt_generation, nbr_attribute_changed, dynamic_grp_create,
}
use networking_protocol_deve.Isis.Adjacency.{
  Adjacency, adj_state_down, isis_adjacency_start_delete_timer,
  isis_update_layer2_mapping_on_adjacency_down, isis_get_next_adj_state_on_receiving_next_hello,
  isis_change_adjacency_state, isis_find_adjacency_on_interface,
}

-- `*(uint32_t *)p` on a machine that stores the low byte first
unfoldable pub read_uint32 : List ℕ → ℕ
read_uint32 p = get_or p 0 0 + 256 * get_or p 1 0 + 65536 * get_or p 2 0 + 16777216 * get_or p 3 0

-- the bytes of a `uint32_t`
unfoldable pub uint32_bytes : ℕ → List ℕ
uint32_bytes x = x % 256 ∷ x / 256 % 256 ∷ x / 65536 % 256 ∷ x / 16777216 % 256 ∷ []

-- whether `memcmp` finds no difference in the first bytes
unfoldable pub memcmp_eq : ℕ → List ℕ → List ℕ → Bool
memcmp_eq zero a b = true
memcmp_eq (suc n) a b = get_or a 0 0 == get_or b 0 0 && memcmp_eq n (drop 1 a) (drop 1 b)

-- A TLV of a buffer, with the bytes of the buffer from its value on.
pub record Tlv : Type 0 where
  pub type : ℕ
  pub len : ℕ
  pub value : List ℕ

-- The TLVs that ITERATE_TLV comes to, on fuel for the size of the buffer.
unfoldable pub iterate_tlv : ℕ → List ℕ → ℕ → ℕ → List Tlv
iterate_tlv zero bytes passed tlv_size = []
iterate_tlv (suc fuel) bytes passed tlv_size =
    let len = get_or bytes 1 0 in
    let value = drop 2 bytes in
    let rest = iterate_tlv fuel (drop len value) ((passed + len + 2) % 2 ^ 32) tlv_size in
    if ltb passed tlv_size
    then record { type = get_or bytes 0 0; len = len; value = value } ∷ rest
    else []

-- The adjacency that a hello updates, with `regen_lsp` and `force_bring_down_adjacency`.
pub record Update : Type 0 where
  pub adjacency : Adjacency
  pub regen_lsp : Bool
  pub force_bring_down_adjacency : Bool

-- `memcpy` of the first bytes
abbrev pub memcpy : List ℕ → ℕ → List ℕ → List ℕ
memcpy dst len src = take len src ++ drop len dst

-- the cases of the `switch`
unfoldable pub set_name : Update → Tlv → Update
set_name u t =
    let a = u.adjacency in
    if memcmp_eq t.len a.nbr_name t.value then u else record u {
      adjacency = record a { nbr_name = memcpy a.nbr_name t.len t.value };
      regen_lsp = true;
    }

unfoldable pub set_rtr_id : Update → ℕ → Update
set_rtr_id u id = if u.adjacency.nbr_rtr_id == id then u else record u {
  adjacency = record u.adjacency { nbr_rtr_id = id };
  force_bring_down_adjacency = true;
}

unfoldable pub set_intf_ip : Update → ℕ → Update
set_intf_ip u ip = if u.adjacency.nbr_intf_ip == ip then u else record u {
  adjacency = record u.adjacency { nbr_intf_ip = ip };
  force_bring_down_adjacency = true;
}

unfoldable pub set_if_index : Update → ℕ → Update
set_if_index u index =
    if u.adjacency.remote_if_index == index
    then u
    else record u { adjacency = record u.adjacency { remote_if_index = index }; regen_lsp = true }

unfoldable pub set_metric : Update → ℕ → Update
set_metric u cost =
    if u.adjacency.cost == cost
    then u
    else record u { adjacency = record u.adjacency { cost = cost }; regen_lsp = true }

unfoldable pub set_mac : Update → Tlv → Update
set_mac u t =
    let a = u.adjacency in
    if memcmp_eq t.len a.nbr_mac t.value then u else record u {
      adjacency = record a { nbr_mac = memcpy a.nbr_mac t.len t.value };
      force_bring_down_adjacency = true;
    }

-- One TLV. `none` stands for one that is written past the end of its field: a name of more than 16
-- bytes, an address of more than 6, an interface index of other than 4.
unfoldable pub apply_tlv : Update → Tlv → Option Update
unfolding set_name set_rtr_id set_intf_ip set_if_index set_metric set_mac
apply_tlv u t =
    if t.type == 137
    then (if ltb 16 t.len then none else some (set_name u t))
    else if t.type == 134
    then some (set_rtr_id u (read_uint32 t.value))
    else if t.type == 132
    then some (set_intf_ip u (read_uint32 t.value))
    else if t.type == 4
    then (if t.len == 4 then some (set_if_index u (read_uint32 t.value)) else none)
    else if t.type == 5
    then some (record u { adjacency = record u.adjacency { hold_time = read_uint32 t.value } })
    else if t.type == 6
    then some (set_metric u (read_uint32 t.value))
    else if t.type == 131
    then (if ltb 6 t.len then none else some (set_mac u t))
    else some u

unfoldable pub apply_tlvs : Update → List Tlv → Option Update
unfolding apply_tlv
apply_tlvs u [] = some u
apply_tlvs u (t ∷ ts) = do u' ← apply_tlv u t; apply_tlvs u' ts

-- `isis_init_adjacency` after the allocation
unfoldable pub isis_init_adjacency : Adjacency
isis_init_adjacency = record {
  nbr_name = replicate 16 0;
  nbr_intf_ip = 0;
  nbr_mac = replicate 6 0;
  nbr_rtr_id = 0;
  remote_if_index = 0;
  adj_state = adj_state_down;
  hold_time = 0;
  cost = 0;
  expiry_timer = none;
  delete_timer = none;
  uptime = 0;
}

abbrev pub unchanged : Adjacency → Update
unchanged a = record { adjacency = a; regen_lsp = false; force_bring_down_adjacency = false }

-- the list with another adjacency in the place of the one that the search finds
unfoldable pub replace_found : List Adjacency → ℕ → Adjacency → List Adjacency
replace_found [] nbr_rtr_id a' = []
replace_found (a ∷ l) nbr_rtr_id a' =
    if nbr_rtr_id == 0
    then a' ∷ l
    else if a.nbr_rtr_id == nbr_rtr_id
    then a' ∷ l
    else a ∷ replace_found l nbr_rtr_id a'

-- the end of the function: a new LSP where one is asked for
unfoldable pub regenerate : IsisNode → Update → IsisNode
unfolding call
regenerate n u =
    if u.regen_lsp && not u.force_bring_down_adjacency
    then call n (schedule_lsp_pkt_generation nbr_attribute_changed)
    else n

module _ (in_intf_grp : Bool) (now : ℕ) where
  -- a new adjacency for the neighbour
  unfoldable pub hello_from_new : IsisNode → List Tlv → Option (IsisNode × Adjacency)
  unfolding apply_tlvs isis_init_adjacency isis_adjacency_start_delete_timer call regenerate
  hello_from_new n tlvs = do
    u ← apply_tlvs (unchanged isis_init_adjacency) tlvs
    let a = isis_adjacency_start_delete_timer u.adjacency
    some (regenerate (call n (dynamic_grp_create a.nbr_rtr_id)) u, a)

  -- an adjacency that is there
  unfoldable pub hello_from_known : IsisNode → Adjacency → List Tlv → Option (IsisNode × Adjacency)
  unfolding apply_tlvs isis_change_adjacency_state regenerate
      isis_update_layer2_mapping_on_adjacency_down isis_get_next_adj_state_on_receiving_next_hello
  hello_from_known n a tlvs = do
    u ← apply_tlvs (unchanged a) tlvs
    let forced =
        isis_change_adjacency_state in_intf_grp now
          (isis_update_layer2_mapping_on_adjacency_down n a) u.adjacency adj_state_down
    let next = isis_get_next_adj_state_on_receiving_next_hello u.adjacency.adj_state
    let advanced = isis_change_adjacency_state in_intf_grp now n u.adjacency next
    (n', a') ← if u.force_bring_down_adjacency then forced else advanced
    some (regenerate n' u, a')

  -- the rest, with the adjacency that the search has found
  unfoldable pub receive_found :
      IsisNode
      → List Adjacency
      → ℕ
      → List Tlv
      → Option Adjacency
      → Option (IsisNode × List Adjacency)
  unfolding hello_from_new hello_from_known replace_found
  receive_found n l rtr_id tlvs none = do (n', a) ← hello_from_new n tlvs; some (n', a ∷ l)
  receive_found n l rtr_id tlvs (some a) = do
    (n', a') ← hello_from_known n a tlvs
    some (n', replace_found l rtr_id a')

  -- the update for a hello with a router id and its TLVs
  unfoldable pub receive_tlvs :
      IsisNode → List Adjacency → ℕ → List Tlv → Option (IsisNode × List Adjacency)
  unfolding receive_found isis_find_adjacency_on_interface
  receive_tlvs n l rtr_id tlvs =
      receive_found n l rtr_id tlvs (isis_find_adjacency_on_interface l rtr_id)

  -- `isis_update_interface_adjacency_from_hello`. `none` stands for a buffer without a router id, where
  -- a NULL pointer is read, and for one whose router id has fewer than four bytes.
  unfoldable pub isis_update_interface_adjacency_from_hello :
      IsisNode → List Adjacency → List ℕ → ℕ → Option (IsisNode × List Adjacency)
  unfolding receive_tlvs iterate_tlv read_uint32
  isis_update_interface_adjacency_from_hello n l hello_tlv_buffer tlv_buff_size = do
    (value, len) ← tlv_buffer_get_particular_tlv hello_tlv_buffer tlv_buff_size 134
    let tlvs = iterate_tlv (suc tlv_buff_size) hello_tlv_buffer 0 tlv_buff_size
    if ltb len 4 then none else receive_tlvs n l (read_uint32 value) tlvs
