-- ===== src/Layer2/Frame/Tag.antt =====
-- What tagging and untagging do to a frame and to its size.
use networking_protocol_deve.Base.{
  ℕ, zero, suc, ◌+◌, ◌-◌, ◌*◌, ◌/◌, ◌%◌, ◌^◌, ◌≤◌, ◌<◌, ◌≡◌, refl, ap, true, false, List, [], ◌∷◌,
  arith,
}
use networking_protocol_deve.Layer2.Frame.{
  Frame, is_pkt_vlan_tagged, get_802_1q_vlan_id, zero_head, store_zero32, push_tag,
  tag_pkt_with_vlan_id, untag_pkt_with_vlan_id, sub32, vid_to_u32, low_byte, high_byte,
}

-- An untagged frame of the size given: addresses and type (14 bytes), payload and FCS.
pub record IsUntagged (f : Frame) (size : ℕ) : Type 0 where
  pub plain : is_pkt_vlan_tagged f ≡ false
  pub type_fits : f.type < 2 ^ 16
  pub size_fits : size + 4 < 2 ^ 32
  pub header_fits : 18 ≤ size

zero_head_twice : (k : ℕ) (bytes : List ℕ) → zero_head k (zero_head k bytes) ≡ zero_head k bytes
unfolding zero_head
zero_head_twice zero bytes = refl
zero_head_twice (suc k) [] = refl
zero_head_twice (suc k) (b ∷ bytes) = ap (λ r. 0 ∷ r) (zero_head_twice k bytes)

store_zero32_twice :
    (bytes : List ℕ) (i : ℕ) → store_zero32 (store_zero32 bytes i) i ≡ store_zero32 bytes i
unfolding store_zero32
store_zero32_twice bytes zero = zero_head_twice 4 bytes
store_zero32_twice [] (suc i) = refl
store_zero32_twice (b ∷ bytes) (suc i) = ap (λ r. b ∷ r) (store_zero32_twice bytes i)

store_zero32-cons4 :
    (a b c d : ℕ) (bytes : List ℕ) (i : ℕ)
    → store_zero32 (a ∷ b ∷ c ∷ d ∷ bytes) (4 + i) ≡ a ∷ b ∷ c ∷ d ∷ store_zero32 bytes i
unfolding store_zero32
store_zero32-cons4 a b c d bytes i = let e : 4 + i ≡ suc (suc (suc (suc i))) = omega arith in rw e

-- the frame with its FCS cleared
abbrev pub clear_fcs : Frame → ℕ → Frame
clear_fcs f size = record f { rest = store_zero32 f.rest (size - 18) }

-- Tagging an untagged frame, written out.
pub tag-plain :
    {f : Frame} {size : ℕ} (vid : ℕ)
    → IsUntagged f size
    → tag_pkt_with_vlan_id f size vid ≡ (push_tag (clear_fcs f size) vid, size + 4)
unfolding tag_pkt_with_vlan_id
tag-plain {f} {size} vid h = ground (arith, store_zero32-cons4 _ _ _ _ f.rest (sub32 size 18))

-- Untagging undoes tagging, up to the FCS that both clear, and restores the size.
pub untag-tag :
    {f : Frame} {size : ℕ} (vid : ℕ)
    → IsUntagged f size
    → (let (g, n) = tag_pkt_with_vlan_id f size vid in untag_pkt_with_vlan_id g n)
      ≡ (clear_fcs f size, size)
unfolding push_tag untag_pkt_with_vlan_id
untag-tag {f} {size} vid h =
    rw (tag-plain vid h) (ground (arith, store_zero32_twice f.rest (size - 18)))

read_back :
    (vid : ℕ)
    → vid < 4096
    → (low_byte (16 * (vid % 4096)) + 256 * high_byte (16 * (vid % 4096))) / 16 % 4096 ≡ vid
read_back vid h = omega arith

-- The VLAN identifier read back from a frame that was tagged with it.
pub vlan_id-tag :
    {f : Frame} {size : ℕ} (vid : ℕ)
    → IsUntagged f size
    → vid < 4096
    → (is_pkt_vlan_tagged (tag_pkt_with_vlan_id f size vid).0 ≡ true)
      × (get_802_1q_vlan_id (tag_pkt_with_vlan_id f size vid).0 ≡ vid_to_u32 vid)
unfolding push_tag is_pkt_vlan_tagged get_802_1q_vlan_id
vlan_id-tag {f} {size} vid h fits = rw (tag-plain vid h) (refl, ap vid_to_u32 (read_back vid fits))
