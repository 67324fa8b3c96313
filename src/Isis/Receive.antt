-- ===== src/Isis/Receive.antt =====
-- Layer5/isis/isis_adjacency.c: hellos and expired timers keep the adjacencies of an interface in order.
use mathlib.Core.Path.{subst}
use networking_protocol_deve.Base.{
  ℕ, ◌+◌, ◌%◌, ◌^◌, ◌≡◌, refl, sym, ap, ◌∙◌, Bool, true, Option, none, some, List, [], ◌∷◌, ◌==◌,
  Bool-cases, Option-cases, inl, inr, ◌⊎◌, arith, All, is_some,
}
use networking_protocol_deve.Isis.Node.{IsisNode, call, dynamic_grp_create}
use networking_protocol_deve.Isis.Adjacency.{
  AdjState, adj_state_unknown, adj_state_down, adj_state_init, adj_state_up, Adjacency,
  isis_adjacency_start_delete_timer, isis_update_layer2_mapping_on_adjacency_down,
  isis_get_next_adj_state_on_receiving_next_hello, isis_change_adjacency_state,
  isis_timer_expire_down_adjacency_cb, isis_find_adjacency_on_interface,
}
use networking_protocol_deve.Isis.Hello.{
  Tlv, Update, unchanged, isis_init_adjacency, replace_found, regenerate, hello_from_new,
  hello_from_known, receive_tlvs, receive_found,
}
use networking_protocol_deve.Isis.States.{
  expire_from, IsTimedIn, IsPhased, Reaches, advance_total, bring_down_total, map_down-IsPhased,
  call-IsPhased,
}
use networking_protocol_deve.Isis.Update.{is_sized, tells_hold_time, apply_tlvs_total}

-- The timers of an adjacency are those of its state.
abbrev pub IsTimed : Adjacency → Type 0
IsTimed a = IsTimedIn a.adj_state a

IsTimedIn-transfer :
    (st : AdjState) (a b : Adjacency)
    → b.expiry_timer ≡ a.expiry_timer
    → b.delete_timer ≡ a.delete_timer
    → IsTimedIn st a
    → IsTimedIn st b
IsTimedIn-transfer adj_state_unknown a b e d t = t
IsTimedIn-transfer adj_state_down a b e d (x, y) = (ap is_some e ∙ x, ap is_some d ∙ y)
IsTimedIn-transfer adj_state_init a b e d (x, y) = (ap is_some e ∙ x, ap is_some d ∙ y)
IsTimedIn-transfer adj_state_up a b e d (x, y) = (ap is_some e ∙ x, ap is_some d ∙ y)

regenerate-IsPhased :
    {c : ℕ} (n : IsisNode) (u : Update) → IsPhased c n → IsPhased c (regenerate n u)
unfolding regenerate call
regenerate-IsPhased n u p = ground (arith, p)

abbrev found_or : Adjacency → Option Adjacency → Adjacency
found_or d none = d
found_or d (some a) = a

counted_now : {c : ℕ} (n : IsisNode) → IsPhased c n → IsPhased n.adjacency_up_count n
counted_now n (p, k) = (p, refl)

found-IsTimed :
    (l : List Adjacency) (id : ℕ) (a : Adjacency)
    → All IsTimed l
    → isis_find_adjacency_on_interface l id ≡ some a
    → IsTimed a
unfolding isis_find_adjacency_on_interface
found-IsTimed [] id a t e = cc
found-IsTimed (b ∷ l) id a (t, ts) e = elim (Bool-cases (id == 0)) [
  | inl y ↦
      let first : isis_find_adjacency_on_interface (b ∷ l) id ≡ some b = ground (arith, y) in
      subst IsTimed (ap (found_or b) (sym first ∙ e)) t
  | inr y ↦ elim (Bool-cases (b.nbr_rtr_id == id)) [
    | inl z ↦
        let first : isis_find_adjacency_on_interface (b ∷ l) id ≡ some b = ground (arith, y, z) in
        subst IsTimed (ap (found_or b) (sym first ∙ e)) t
    | inr z ↦
        let later : isis_find_adjacency_on_interface (b ∷ l) id
            ≡ isis_find_adjacency_on_interface l id =
          ground (arith, y, z) in
        found-IsTimed l id a ts (sym later ∙ e)
  ]
]

replaced-IsTimed :
    (l : List Adjacency) (id : ℕ) (a : Adjacency)
    → All IsTimed l
    → IsTimed a
    → All IsTimed (replace_found l id a)
unfolding replace_found
replaced-IsTimed [] id a ts t = tt
replaced-IsTimed (b ∷ l) id a (tb, ts) t = elim (Bool-cases (id == 0)) [
  | inl y ↦ rw y (t, ts)
  | inr y ↦ elim (Bool-cases (b.nbr_rtr_id == id)) [
    | inl z ↦ rw (y, z) (t, ts)
    | inr z ↦ rw (y, z) (tb, replaced-IsTimed l id a ts t)
  ]
]

module _ (in_intf_grp : Bool) (now : ℕ) where
  -- On an adjacency whose timers are those of its state, a hello whose TLVs fit their fields and that
  -- tells a hold time, each from 1 to 2147483 seconds, is processed without a failed assertion, those of
  -- the timers included; the timers then are those of the new state, which is down, or
  -- the one that follows the old state while the router id, the address and the MAC stay.
  pub known_total :
      (n : IsisNode) (a : Adjacency) (ts : List Tlv)
      → IsPhased n.adjacency_up_count n
      → IsTimed a
      → All (λ t. is_sized t ≡ true) ts
      → tells_hold_time ts ≡ true
      → (n' : IsisNode) × (a' : Adjacency) × (hello_from_known in_intf_grp now n a ts
          ≡ some (n', a'))
        × IsTimed a'
        × IsPhased n'.adjacency_up_count n'
        × ((a'.adj_state ≡ adj_state_down)
            ⊎ ((a'.adj_state ≡ isis_get_next_adj_state_on_receiving_next_hello a.adj_state)
                × (a'.nbr_rtr_id ≡ a.nbr_rtr_id)
                × (a'.nbr_intf_ip ≡ a.nbr_intf_ip)
                × (a'.nbr_mac ≡ a.nbr_mac)))
  unfolding hello_from_known isis_change_adjacency_state
  known_total n a ts p t sized told =
      let (u, eu, (st, ex, de, force), held) = apply_tlvs_total (unchanged a) ts sized in
      let b = u.adjacency in
      let tb : IsTimed b =
        subst (λ x. IsTimedIn x b) (sym st) (IsTimedIn-transfer a.adj_state a b ex de t) in
      elim (Bool-cases u.force_bring_down_adjacency) [
        | inl f ↦
            let n₁ = isis_update_layer2_mapping_on_adjacency_down n a in
            let (n₂, a', e, st', t', p', same) =
              bring_down_total in_intf_grp now b.adj_state n₁ b refl (map_down-IsPhased n a p) tb in
            (
              regenerate n₂ u,
              a',
              rw (eu, f, e) refl,
              subst (λ x. IsTimedIn x a') (sym st') t',
              counted_now (regenerate n₂ u) (regenerate-IsPhased n₂ u p'),
              inl st',
            )
        | inr f ↦
            let (n₂, a', e, st', t', p', (_, ip, mac, id, _, _, _)) =
              advance_total in_intf_grp now b.adj_state n b refl p tb
                (held (ground (arith, told))) in
            let (_, id₁, ip₁, mac₁) = force f in
            (
              regenerate n₂ u,
              a',
              rw (eu, f, e) refl,
              subst (λ x. IsTimedIn x a') (sym st') t',
              counted_now (regenerate n₂ u) (regenerate-IsPhased n₂ u p'),
              inr (
                st' ∙ ap isis_get_next_adj_state_on_receiving_next_hello st,
                id ∙ id₁,
                ip ∙ ip₁,
                mac ∙ mac₁,
              ),
            )
      ]

  new_total :
      (n : IsisNode) (ts : List Tlv)
      → IsPhased n.adjacency_up_count n
      → All (λ t. is_sized t ≡ true) ts
      → (n' : IsisNode) × (a' : Adjacency) × (hello_from_new in_intf_grp now n ts ≡ some (n', a'))
        × (a'.adj_state ≡ adj_state_down)
        × IsTimed a'
        × IsPhased n'.adjacency_up_count n'
  unfolding hello_from_new isis_init_adjacency isis_adjacency_start_delete_timer
  new_total n ts p sized =
      let (u, eu, (st, ex, de, force), _) =
        apply_tlvs_total (unchanged isis_init_adjacency) ts sized in
      let a : Adjacency = record u.adjacency { delete_timer = some 5000 } in
      let n₁ = call n (dynamic_grp_create a.nbr_rtr_id) in
      (
        regenerate n₁ u,
        a,
        rw (eu, de) refl,
        st,
        subst (λ x. IsTimedIn x a) (sym st) (ap is_some ex, refl),
        counted_now (regenerate n₁ u)
            (regenerate-IsPhased n₁ u (call-IsPhased n (dynamic_grp_create a.nbr_rtr_id) p)),
      )

  -- On adjacencies whose timers are those of their states, a hello whose TLVs fit their fields and that
  -- tells a hold time, each from 1 to 2147483 seconds, is processed without a failed assertion, those of
  -- the timers included; every timer then is that of its state again, and the
  -- reconciliation timer runs exactly during the phase, if it did before.
  pub receive_total :
      (n : IsisNode) (l : List Adjacency) (rtr_id : ℕ) (ts : List Tlv)
      → IsPhased n.adjacency_up_count n
      → All IsTimed l
      → All (λ t. is_sized t ≡ true) ts
      → tells_hold_time ts ≡ true
      → (n' : IsisNode) × (l' : List Adjacency) × (receive_tlvs in_intf_grp now n l rtr_id ts
          ≡ some (n', l'))
        × All IsTimed l'
        × IsPhased n'.adjacency_up_count n'
  unfolding receive_tlvs receive_found
  receive_total n l rtr_id ts p t sized told =
      elim (Option-cases (isis_find_adjacency_on_interface l rtr_id)) [
        | inl e ↦
            let (n', a, e', _, ta, p') = new_total n ts p sized in
            (n', a ∷ l, rw (e, e') refl, (ta, t), p')
        | inr (a, e) ↦
            let (n', a', e', ta, p', _) =
              known_total n a ts p (found-IsTimed l rtr_id a t e) sized told in
            (n', replace_found l rtr_id a', rw (e, e') refl, replaced-IsTimed l rtr_id a' t ta, p')
      ]

  -- When the hold time of an adjacency whose timers are those of its state has passed, it goes down,
  -- with the timer of its deletion, no assertion fails, and the count of the adjacencies that are up
  -- drops by one modulo 2^16, whether the adjacency was up or not.
  pub expire_total :
      {c : ℕ} (n : IsisNode) (a : Adjacency)
      → IsPhased c n
      → IsTimed a
      → is_some a.expiry_timer ≡ true
      → Reaches in_intf_grp now a adj_state_down
          ((c + 65535) % 2 ^ 16)
          (isis_timer_expire_down_adjacency_cb in_intf_grp now n a)
  unfolding isis_timer_expire_down_adjacency_cb isis_change_adjacency_state
  expire_total n a p t r = expire_from in_intf_grp now a.adj_state n a p t r
