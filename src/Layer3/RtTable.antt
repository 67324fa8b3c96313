-- ===== src/Layer3/RtTable.antt =====
-- Layer3/layer3.c: the routing table. A route list is a list of routes from the head on; the calls
-- that tell the subscribers of a change are a list of notices, the latest first. The install time,
-- which is only shown, is left out. Masks lie between 0 and 32; `shift_32` is the undefined shift
-- of `apply_mask`.
use networking_protocol_deve.Base.{
  ℕ, suc, ◌+◌, Bool, true, false, ◌&&◌, ◌||◌, not, Option, none, some, List, [], ◌∷◌, ◌==◌, ltb,
  if◌then◌else◌, get_or, is_some, length,
}
use networking_protocol_deve.Base.CString.{Chars, strncmp_eq, prefix}
use networking_protocol_deve.Net.Ip.{tcp_ip_covert_ip_n_to_p, tcp_ip_covert_ip_p_to_n, apply_mask}
use networking_protocol_deve.Layer3.Nexthops.{
  Nexthop, NexthopArray, max_nxt_hops, l3_route_insert_nexthop, Scan, duplicate, free_slot, no_slot,
  scan_nexthops,
}
pub mod Find
pub mod Lookup
pub mod Lpm
pub mod Active

-- `l3_route_t`
pub record Route : Type 0 where
  pub dest : Chars
  pub mask : ℕ
  pub is_direct : Bool
  pub nexthops : NexthopArray
  pub spf_metric : ℕ
  pub nxthop_idx : ℕ

-- RT_ADD_F, RT_DEL_F and RT_UPDATE_F
pub data RtFlag : Type 0 where
  rt_add_f rt_del_f rt_update_f : RtFlag

-- `rt_table_add_route_to_notify_list`: the key of the route and the flag
pub record Notice : Type 0 where
  pub dest : Chars
  pub mask : ℕ
  pub flag : RtFlag

abbrev pub notice : Route → RtFlag → Notice
notice r flag = record { dest = r.dest; mask = r.mask; flag = flag }

-- `rt_table_t`
pub record RtTable : Type 0 where
  pub routes : List Route
  pub notices : List Notice

unfoldable pub init_rt_table : RtTable
init_rt_table = record { routes = []; notices = [] }

-- the test of the lookups
abbrev pub has_key : Chars → ℕ → Route → Bool
has_key dest mask r = strncmp_eq 16 dest r.dest && r.mask == mask

-- the loop of `l3rib_lookup` and of `rt_table_lookup`
unfoldable pub find_route : List Route → Chars → ℕ → Option Route
find_route [] dest mask = none
find_route (r ∷ rs) dest mask = if has_key dest mask r then some r else find_route rs dest mask

-- the route that a lookup returned, changed in place
unfoldable pub update_route : List Route → Chars → ℕ → (Route → Route) → List Route
update_route [] dest mask change = []
update_route (r ∷ rs) dest mask change =
    if has_key dest mask r then change r ∷ rs else r ∷ update_route rs dest mask change

-- the route that a lookup returned, unlinked
unfoldable pub remove_route : List Route → Chars → ℕ → List Route
remove_route [] dest mask = []
remove_route (r ∷ rs) dest mask = if has_key dest mask r then rs else r ∷ remove_route rs dest mask

-- `l3_route_get_active_nexthop`: the nexthop to use, and the route with the index moved on
unfoldable pub l3_route_get_active_nexthop : Route → Option Nexthop × Route
l3_route_get_active_nexthop r =
    if r.is_direct then (none, r) else elim (get_or r.nexthops r.nxthop_idx none) [
      | none ↦ (none, r)
      | some nexthop ↦ (
        some nexthop,
        record r {
          nxthop_idx =
              if r.nxthop_idx + 1 == max_nxt_hops
                || not (is_some (get_or r.nexthops (r.nxthop_idx + 1) none))
              then 0
              else r.nxthop_idx + 1;
        },
      )
    ]

-- The loop of `clear_rt_table`: the routes left, and the notices.
unfoldable pub clear_routes : List Route → List Notice → List Route × List Notice
clear_routes [] out = ([], out)
clear_routes (r ∷ rs) out =
    let (kept, out') = clear_routes rs (if r.is_direct then out else notice r rt_del_f ∷ out) in
    (if r.is_direct then r ∷ kept else kept, out')

-- `clear_rt_table`
unfoldable pub clear_rt_table : RtTable → RtTable
unfolding clear_routes
clear_rt_table t =
    let (kept, out) = clear_routes t.routes t.notices in record { routes = kept; notices = out }

-- the string "0.0.0.0"
abbrev pub default_dest : Chars
default_dest = b'0' ∷ b'.' ∷ b'0' ∷ b'.' ∷ b'0' ∷ b'.' ∷ b'0' ∷ []

abbrev pub is_default : Route → Bool
is_default r = strncmp_eq 16 default_dest r.dest && r.mask == 0

-- What a round of the loop of `l3rib_lookup_lpm` keeps: the longest mask so far and its route, and
-- the default route.
pub record Best : Type 0 where
  pub longest_mask : ℕ
  pub lpm_l3_route : Option Route
  pub default_l3_rt : Option Route

-- the route that `rt_table_add_route` allocates
unfoldable pub new_route : Chars → ℕ → Route
new_route dst_str_with_mask mask = record {
  dest = prefix 15 dst_str_with_mask;
  mask = mask;
  is_direct = true;
  nexthops = none ∷ none ∷ none ∷ none ∷ [];
  spf_metric = 0;
  nxthop_idx = 0;
}

-- the nexthop that it allocates, put into a route
unfoldable pub with_nexthop : Route → Chars → ℕ → ℕ → Route
with_nexthop r gw oif spf_metric =
    let nexthop : Nexthop = record {
      gw_ip = prefix 15 gw;
      oif = oif;
      ref_count = 0;
      ifindex = 0;
      hit_count = 0;
    } in
    record r {
      is_direct = false;
      spf_metric = spf_metric;
      nexthops = (l3_route_insert_nexthop r.nexthops nexthop).0;
    }

-- `rt_table_add_route`, where the lookup found no route
unfoldable pub add_new_route : RtTable → Chars → ℕ → Option (Chars × ℕ) → ℕ → RtTable
unfolding new_route with_nexthop
add_new_route t dst_str_with_mask mask via spf_metric =
    let r : Route = elim via [
      | none ↦ new_route dst_str_with_mask mask
      | some (gw, oif) ↦ with_nexthop (new_route dst_str_with_mask mask) gw oif spf_metric
    ] in
    record { routes = r ∷ t.routes; notices = notice r rt_add_f ∷ t.notices }

-- `rt_table_add_route`, where the lookup found the route `r`. Without a gateway the comparison
-- with the first nexthop, if there is one, reads through NULL: `none`.
unfoldable pub add_to_route : RtTable → Chars → ℕ → Route → Option (Chars × ℕ) → ℕ → Option RtTable
unfolding with_nexthop
add_to_route t key mask r none spf_metric =
    if is_some (get_or r.nexthops 0 none) then none else some t
add_to_route t key mask r (some (gw, oif)) spf_metric = elim (scan_nexthops gw oif r.nexthops) [
  | duplicate ↦ some t
  | no_slot ↦ some t
  | free_slot ↦ some (record {
    routes = update_route t.routes key mask (λ x. with_nexthop x gw oif spf_metric);
    notices = notice r rt_update_f ∷ t.notices;
  })
]

-- `rt_table_add_route` behind the lookup; `key` is the text that the lookup compared.
unfoldable pub add_found :
    RtTable → Chars → Chars → ℕ → Option (Chars × ℕ) → ℕ → Option Route → Option RtTable
add_found t dst_str_with_mask key mask via spf_metric none =
    some (add_new_route t dst_str_with_mask mask via spf_metric)
add_found t dst_str_with_mask key mask via spf_metric (some r) =
    add_to_route t key mask r via spf_metric

-- `rt_table_delete_route` behind the lookup. Where no route has the key, `rt_table_lookup` ends without
-- a `return` and its caller uses the value: `none` stands for what is undefined.
unfoldable pub delete_found : RtTable → Chars → ℕ → Option Route → Option RtTable
delete_found t key mask none = none
delete_found t key mask (some r) =
    some
      (record { routes = remove_route t.routes key mask; notices = notice r rt_del_f ∷ t.notices })

module _ (shift_32 : ℕ → ℕ) where
  -- `l3rib_lookup`
  unfoldable pub l3rib_lookup : RtTable → ℕ → ℕ → Option Route
  l3rib_lookup t dest_ip mask =
      find_route t.routes (apply_mask shift_32 (tcp_ip_covert_ip_n_to_p dest_ip) mask) mask

  -- The test of `l3rib_lookup_lpm` on a route: the text of the masked address is compared for its
  -- own length only.
  unfoldable pub lpm_match : Chars → Route → Bool
  lpm_match dest_ip_str r =
      let subnet = apply_mask shift_32 dest_ip_str r.mask in
      strncmp_eq (length subnet) subnet r.dest

  -- one round
  unfoldable pub lpm_round : Chars → Route → Best → Best
  unfolding lpm_match
  lpm_round dest_ip_str r best =
      if is_default r
      then record best { default_l3_rt = some r }
      else if lpm_match dest_ip_str r && ltb best.longest_mask r.mask
      then record best { longest_mask = r.mask; lpm_l3_route = some r }
      else best

  unfoldable pub lpm_loop : Chars → List Route → Best → Best
  lpm_loop dest_ip_str [] best = best
  lpm_loop dest_ip_str (r ∷ rs) best = lpm_loop dest_ip_str rs (lpm_round dest_ip_str r best)

  -- `l3rib_lookup_lpm`
  unfoldable pub l3rib_lookup_lpm : RtTable → ℕ → Option Route
  l3rib_lookup_lpm t dest_ip =
      let best =
        lpm_loop (tcp_ip_covert_ip_n_to_p dest_ip) t.routes
          (record { longest_mask = 0; lpm_l3_route = none; default_l3_rt = none }) in
      elim best.lpm_l3_route [ none ↦ best.default_l3_rt | some r ↦ some r ]

  -- `rt_table_delete_route`
  unfoldable pub rt_table_delete_route : RtTable → Chars → ℕ → Option RtTable
  rt_table_delete_route t ip_addr mask =
      let key = apply_mask shift_32 ip_addr mask in
      delete_found t key mask (find_route t.routes key mask)

  -- `rt_table_add_route`; `via` is the gateway with its interface, `none` for two NULL pointers.
  unfoldable pub rt_table_add_route : RtTable → Chars → ℕ → Option (Chars × ℕ) → ℕ → Option RtTable
  rt_table_add_route t dst mask via spf_metric =
      let dst_str_with_mask = apply_mask shift_32 dst mask in
      let dst_int = tcp_ip_covert_ip_p_to_n dst_str_with_mask in
      let key = apply_mask shift_32 (tcp_ip_covert_ip_n_to_p dst_int) mask in
      add_found t dst_str_with_mask key mask via spf_metric (l3rib_lookup t dst_int mask)

  -- `rt_table_add_direct_route`
  unfoldable pub rt_table_add_direct_route : RtTable → Chars → ℕ → Option RtTable
  rt_table_add_direct_route t dst mask = rt_table_add_route t dst mask none 0
