-- ===== src/Isis/Update.antt =====
-- Layer5/isis/isis_adjacency.c: what the TLVs of a hello leave of an adjacency.
use networking_protocol_deve.Base.{
  ◌≡◌, refl, ◌∙◌, Bool, true, false, ◌&&◌, ◌||◌, not, some, List, [], ◌∷◌, ◌==◌, if◌then◌else◌,
  Bool-cases, inl, inr, arith, leb, All,
}
use networking_protocol_deve.Isis.States.{is_held}
use networking_protocol_deve.Isis.Hello.{
  Tlv, Update, apply_tlv, apply_tlvs, set_name, set_rtr_id, set_intf_ip, set_if_index, set_metric,
  set_mac, read_uint32,
}

-- The value of the TLV fits the field that it is written to, and a hold time lies between 1 and the
-- greatest one whose milliseconds an `int` holds.
abbrev pub is_sized : Tlv → Bool
is_sized t =
    if t.type == 137
    then leb t.len 16
    else if t.type == 4
    then t.len == 4
    else if t.type == 131
    then leb t.len 6
    else if t.type == 5
    then not (read_uint32 t.value == 0) && leb (read_uint32 t.value) 2147483
    else true

-- The hello tells a hold time.
abbrev pub tells_hold_time : List Tlv → Bool
tells_hold_time [] = false
tells_hold_time (t ∷ ts) = t.type == 5 || tells_hold_time ts

-- the state and the timers stay; and the router id, the address and the MAC, unless a change of them
-- was noted
abbrev pub Keeps : Update → Update → Type 0
Keeps u v =
    (v.adjacency.adj_state ≡ u.adjacency.adj_state)
    × (v.adjacency.expiry_timer ≡ u.adjacency.expiry_timer)
    × (v.adjacency.delete_timer ≡ u.adjacency.delete_timer)
    × (v.force_bring_down_adjacency ≡ false
        → (u.force_bring_down_adjacency ≡ false)
          × (v.adjacency.nbr_rtr_id ≡ u.adjacency.nbr_rtr_id)
          × (v.adjacency.nbr_intf_ip ≡ u.adjacency.nbr_intf_ip)
          × (v.adjacency.nbr_mac ≡ u.adjacency.nbr_mac))

Keeps-refl : (u : Update) → Keeps u u
Keeps-refl u = (refl, refl, refl, λ h. (h, refl, refl, refl))

Keeps-trans : (u v w : Update) → Keeps u v → Keeps v w → Keeps u w
Keeps-trans u v w (a, b, c, d) (a', b', c', d') = (
  a' ∙ a,
  b' ∙ b,
  c' ∙ c,
  λ h. let (f, x, y, z) = d' h in let (f', x', y', z') = d f in (f', x ∙ x', y ∙ y', z ∙ z'),
)

Keeps-if : (b : Bool) (u v : Update) → Keeps u v → Keeps u (if b then u else v)
Keeps-if true u v k = Keeps-refl u
Keeps-if false u v k = k

-- the hold time is that of the TLV, or stays
abbrev Holds : Tlv → Update → Update → Type 0
Holds t u v =
    v.adjacency.hold_time ≡ (if t.type == 5 then read_uint32 t.value else u.adjacency.hold_time)

-- A TLV that fits is applied.
apply_tlv_total :
    (u : Update) (t : Tlv)
    → is_sized t ≡ true
    → (v : Update) × (apply_tlv u t ≡ some v) × Keeps u v × Holds t u v
unfolding apply_tlv set_name set_rtr_id set_intf_ip set_if_index set_metric set_mac
apply_tlv_total u t h = elim (Bool-cases (t.type == 137)) [
  | inl a ↦ (
    set_name u t,
    ground (arith, a, h),
    Keeps-if _ u _ (refl, refl, refl, λ f. (f, refl, refl, refl)),
    ground (arith, a),
  )
  | inr a ↦ elim (Bool-cases (t.type == 134)) [
    | inl b ↦ (
      set_rtr_id u (read_uint32 t.value),
      ground (arith, a, b),
      Keeps-if _ u _ (refl, refl, refl, λ f. absurd (ground (arith, f))),
      ground (arith, a),
    )
    | inr b ↦ elim (Bool-cases (t.type == 132)) [
      | inl c ↦ (
        set_intf_ip u (read_uint32 t.value),
        ground (arith, a, b, c),
        Keeps-if _ u _ (refl, refl, refl, λ f. absurd (ground (arith, f))),
        ground (arith, a),
      )
      | inr c ↦ elim (Bool-cases (t.type == 4)) [
        | inl d ↦ (
          set_if_index u (read_uint32 t.value),
          ground (arith, a, b, c, d, h),
          Keeps-if _ u _ (refl, refl, refl, λ f. (f, refl, refl, refl)),
          ground (arith, a),
        )
        | inr d ↦ elim (Bool-cases (t.type == 5)) [
          | inl e ↦ (
            record u { adjacency = record u.adjacency { hold_time = read_uint32 t.value } },
            ground (arith, a, b, c, d, e),
            (refl, refl, refl, λ f. (f, refl, refl, refl)),
            rw e refl,
          )
          | inr e ↦ elim (Bool-cases (t.type == 6)) [
            | inl g ↦ (
              set_metric u (read_uint32 t.value),
              ground (arith, a, b, c, d, e, g),
              Keeps-if _ u _ (refl, refl, refl, λ f. (f, refl, refl, refl)),
              ground (arith, a, e),
            )
            | inr g ↦ elim (Bool-cases (t.type == 131)) [
              | inl k ↦ (
                set_mac u t,
                ground (arith, a, b, c, d, e, g, k, h),
                Keeps-if _ u _ (refl, refl, refl, λ f. absurd (ground (arith, f))),
                ground (arith, a, e),
              )
              | inr k ↦ (u, ground (arith, a, b, c, d, e, g, k), Keeps-refl u, ground (arith, a, e))
            ]
          ]
        ]
      ]
    ]
  ]
]

held_next :
    (u v : Update) (t : Tlv) (b : Bool)
    → is_sized t ≡ true
    → Holds t u v
    → (is_held u.adjacency || (t.type == 5 || b)) ≡ true
    → (is_held v.adjacency || b) ≡ true
held_next u v t b h e k = elim (Bool-cases (t.type == 5)) [
  | inl y ↦
      let told : v.adjacency.hold_time ≡ read_uint32 t.value = e ∙ rw y refl in
      ground (arith, h, told, y)
  | inr y ↦
      let kept : v.adjacency.hold_time ≡ u.adjacency.hold_time = e ∙ rw y refl in
      ground (arith, kept, k, y)
]

-- TLVs that fit are applied, and where they tell a hold time, or the one there is in range, it is in range.
pub apply_tlvs_total :
    (u : Update) (ts : List Tlv)
    → All (λ t. is_sized t ≡ true) ts
    → (v : Update) × (apply_tlvs u ts ≡ some v)
      × Keeps u v
      × ((is_held u.adjacency || tells_hold_time ts) ≡ true → is_held v.adjacency ≡ true)
unfolding apply_tlvs
apply_tlvs_total u [] h = (u, refl, Keeps-refl u, λ k. ground (arith, k))
apply_tlvs_total u (t ∷ ts) (h, hs) =
    let (v, e, k, held) = apply_tlv_total u t h in
    let (w, e', k', held') = apply_tlvs_total v ts hs in
    (w, rw e e', Keeps-trans u v w k k', λ x. held' (held_next u v t (tells_hold_time ts) h held x))
