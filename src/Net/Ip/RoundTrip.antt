-- ===== src/Net/Ip/RoundTrip.antt =====
-- Reading an address back from its text, and what a mask does to it.
use networking_protocol_deve.Base.{
  ℕ, zero, suc, All, length, length-append, sym, ◌+◌, ◌-◌, ◌*◌, ◌/◌, ◌%◌, ◌^◌, ◌<◌, ◌≤◌, ◌≡◌, ◌≢◌,
  refl, ap, ◌∙◌, inl, inr, true, false, some, [], ◌∷◌, ◌++◌, ◌==◌, ltb, arith, Bool-cases,
}
use networking_protocol_deve.Base.CString.{Chars, strncmp_eq, strncmp_eq_refl, prefix, prefix-of_eq}
use mathlib.Core.List.{append-nil}
use native.Mathlib.Nat.{pow-suc, div-add-mod}
use networking_protocol_deve.Net.Ip.{
  octet_chars, tcp_ip_covert_ip_n_to_p, Pton, pton_step, pton_loop, inet_pton,
  tcp_ip_covert_ip_p_to_n, clear_low, apply_mask,
}

-- the state at the start of an octet, and behind its digits
abbrev before : ℕ → ℕ → Pton
before k acc = record { saw_digit = false; octets = k; current = 0; above = acc }

abbrev behind : ℕ → ℕ → ℕ → Pton
behind k b acc = record { saw_digit = true; octets = k; current = b; above = acc }

first_digit :
    (d k acc : ℕ)
    → d < 10
    → k < 4
    → pton_step (b'0' + d) (before k acc) ≡ some (behind (k + 1) d acc)
unfolding pton_step
first_digit d k acc h l = ground arith

next_digit :
    (d k b acc : ℕ)
    → d < 10
    → 0 < b
    → b * 10 + d < 256
    → pton_step (b'0' + d) (behind k b acc) ≡ some (behind k (b * 10 + d) acc)
unfolding pton_step
next_digit d k b acc h p l = ground arith

dot : (k b acc : ℕ) → k < 4 → pton_step b'.' (behind k b acc) ≡ some (before k (acc * 256 + b))
unfolding pton_step
dot k b acc h = ground arith

loop_step :
    (c : ℕ) (s : Chars) (p q : Pton) → pton_step c p ≡ some q → pton_loop (c ∷ s) p ≡ pton_loop s q
unfolding pton_loop
loop_step c s p q e = rw (e, pton_loop)

octet_read :
    (b k acc : ℕ) (s : Chars)
    → b < 256
    → k < 4
    → pton_loop (octet_chars b ++ s) (before k acc) ≡ pton_loop s (behind (k + 1) b acc)
unfolding octet_chars
octet_read b k acc s h l = elim (Bool-cases (ltb b 10)) [
  | inl one ↦ rw one (loop_step _ _ _ _ (first_digit b k acc (ground arith) l))
  | inr more ↦ elim (Bool-cases (ltb b 100)) [
    | inl two ↦
        let tens : b / 10 * 10 + b % 10 ≡ b = omega arith in
        rw (more, two)
          (loop_step _ _ _ _ (first_digit (b / 10) k acc (ground arith) l)
            ∙ loop_step _ _ _ _ (
                next_digit (b % 10) (k + 1) (b / 10) acc (omega arith) (ground arith) (omega arith))
            ∙ ap (λ v. pton_loop s (behind (k + 1) v acc)) tens)
    | inr three ↦
        let hundreds : (b / 100 * 10 + b / 10 % 10) * 10 + b % 10 ≡ b = omega arith in
        rw (more, three)
          (loop_step _ _ _ _ (first_digit (b / 100) k acc (omega arith) l)
            ∙ loop_step _ _ _ _ (
                next_digit (b / 10 % 10) (k + 1) (b / 100) acc (omega arith) (ground arith)
                  (omega arith))
            ∙ loop_step _ _ _ _ (
                next_digit (b % 10) (k + 1) (b / 100 * 10 + b / 10 % 10) acc (omega arith)
                  (ground arith) (omega arith))
            ∙ ap (λ v. pton_loop s (behind (k + 1) v acc)) hundreds)
  ]
]

octet_dot :
    (b k acc : ℕ) (s : Chars)
    → b < 256
    → k < 3
    → pton_loop (octet_chars b ++ (b'.' ∷ s)) (before k acc)
      ≡ pton_loop s (before (k + 1) (acc * 256 + b))
octet_dot b k acc s h l =
    octet_read b k acc (b'.' ∷ s) h (omega arith)
    ∙ loop_step _ _ _ _ (dot (k + 1) b acc (omega arith))

last_octet : (b acc : ℕ) → b < 256 → pton_loop (octet_chars b) (before 3 acc) ≡ some (acc * 256 + b)
last_octet b acc h =
    ap (λ s. pton_loop s (before 3 acc)) (sym (append-nil (octet_chars b)))
    ∙ octet_read b 3 acc [] h (omega arith)
    ∙ (unfold pton_loop in refl)

-- `inet_pton` reads back the text that is printed for an address.
pub pton-ntop : (x : ℕ) → x < 2 ^ 32 → inet_pton (tcp_ip_covert_ip_n_to_p x) ≡ some x
unfolding inet_pton tcp_ip_covert_ip_n_to_p
pton-ntop x h =
    octet_dot _ 0 0 _ (omega arith) (omega arith)
    ∙ octet_dot _ 1 _ _ (omega arith) (omega arith)
    ∙ octet_dot _ 2 _ _ (omega arith) (omega arith)
    ∙ last_octet _ _ (omega arith)
    ∙ ap (λ n. some n) (omega arith)

-- characters that are not NUL
abbrev Printable : Chars → Type 0
Printable s = All (λ c. c ≢ 0) s

All-append : (s t : Chars) → Printable s → Printable t → Printable (s ++ t)
All-append [] t h k = k
All-append (c ∷ s) t h k = (h.0, All-append s t h.1 k)

octet_bounds : (b : ℕ) → b < 256 → Printable (octet_chars b) × (length (octet_chars b) ≤ 3)
unfolding octet_chars
octet_bounds b h = elim (Bool-cases (ltb b 10)) [
  | inl one ↦ rw one (omega arith)
  | inr more ↦ elim (Bool-cases (ltb b 100)) [
    | inl two ↦ rw (more, two) (omega arith)
    | inr three ↦ rw (more, three) (omega arith)
  ]
]

joined :
    (b : ℕ) (s : Chars) (n : ℕ)
    → b < 256
    → Printable s × (length s ≤ n)
    → Printable (octet_chars b ++ (b'.' ∷ s)) × (length (octet_chars b ++ (b'.' ∷ s)) ≤ n + 4)
joined b s n h k = (
  All-append (octet_chars b) (b'.' ∷ s) (octet_bounds b h).0 (omega arith, k.0),
  omega (arith, length-append (octet_chars b) (b'.' ∷ s), (octet_bounds b h).1, k.1),
)

ntop_bounds :
    (x : ℕ) → Printable (tcp_ip_covert_ip_n_to_p x) × (length (tcp_ip_covert_ip_n_to_p x) ≤ 15)
unfolding tcp_ip_covert_ip_n_to_p
ntop_bounds x =
    joined _ _ 11 (omega arith)
      (joined _ _ 7 (omega arith) (joined _ _ 3 (omega arith) (octet_bounds _ (omega arith))))

prefix_whole : (n : ℕ) (s : Chars) → Printable s → length s ≤ n → prefix n s ≡ s
unfolding prefix
prefix_whole zero [] h k = refl
prefix_whole zero (c ∷ s) h k = absurd (omega arith)
prefix_whole (suc n) [] h k = refl
prefix_whole (suc n) (c ∷ s) h k = ground (arith, prefix_whole n s h.1)

-- The text of an address fits the 16 characters that the code compares and stores.
pub prefix-ntop :
    (n x : ℕ) → 15 ≤ n → prefix n (tcp_ip_covert_ip_n_to_p x) ≡ tcp_ip_covert_ip_n_to_p x
prefix-ntop n x h =
    prefix_whole n (tcp_ip_covert_ip_n_to_p x) (ntop_bounds x).0 (omega (arith, (ntop_bounds x).1))

-- Comparing the texts of two addresses compares the addresses.
pub strncmp_eq-ntop :
    (x y : ℕ)
    → x < 2 ^ 32
    → y < 2 ^ 32
    → strncmp_eq 16 (tcp_ip_covert_ip_n_to_p x) (tcp_ip_covert_ip_n_to_p y) ≡ (x == y)
strncmp_eq-ntop x y hx hy = elim (Bool-cases (x == y)) [
  | inl e ↦
      let same : x ≡ y = ground arith in
      rw (e, same) (strncmp_eq_refl 16 (tcp_ip_covert_ip_n_to_p y))
  | inr n ↦
      elim (Bool-cases (strncmp_eq 16 (tcp_ip_covert_ip_n_to_p x) (tcp_ip_covert_ip_n_to_p y))) [
        | inl e ↦
            let texts : tcp_ip_covert_ip_n_to_p x ≡ tcp_ip_covert_ip_n_to_p y =
              sym (prefix-ntop 16 x (omega arith))
              ∙ prefix-of_eq 16 _ _ e
              ∙ prefix-ntop 16 y (omega arith) in
            let same : some x ≡ some y =
              sym (pton-ntop x hx) ∙ ap inet_pton texts ∙ pton-ntop y hy in
            absurd (ground arith)
        | inr m ↦ m ∙ sym n
      ]
]

pub p_to_n-ntop : (x : ℕ) → x < 2 ^ 32 → tcp_ip_covert_ip_p_to_n (tcp_ip_covert_ip_n_to_p x) ≡ x
unfolding tcp_ip_covert_ip_p_to_n
p_to_n-ntop x h = rw (pton-ntop x h, tcp_ip_covert_ip_p_to_n)

-- the network that an address lies in, for masks from 1 to 32
unfoldable pub network : ℕ → ℕ → ℕ
network x mask = clear_low x (32 - mask)

network_id : (x mask : ℕ) → mask ≡ 32 → network x mask ≡ x
unfolding network
network_id x mask e = rw e (omega arith)

power_pos : (k : ℕ) → 0 < 2 ^ k
power_pos zero = omega arith
power_pos (suc k) = simp pow-suc (omega (arith, power_pos k))

pub network-lt : (x mask : ℕ) → x < 2 ^ 32 → network x mask < 2 ^ 32
unfolding network
network-lt x mask h = grind (arith, div-add-mod)

div-mul : (q n : ℕ) → 0 < n → q * n / n ≡ q
div-mul q n h = grind arith

pub network-network : (x mask : ℕ) → network (network x mask) mask ≡ network x mask
unfolding network
network-network x mask =
    ap (λ q. q * 2 ^ (32 - mask))
      (div-mul (x / 2 ^ (32 - mask)) (2 ^ (32 - mask)) (power_pos (32 - mask)))

-- The text of an address, masked, is the text of its network.
pub apply_mask-ntop :
    (shift_32 : ℕ → ℕ) (x mask : ℕ)
    → x < 2 ^ 32
    → 1 ≤ mask
    → mask ≤ 32
    → apply_mask shift_32 (tcp_ip_covert_ip_n_to_p x) mask
      ≡ tcp_ip_covert_ip_n_to_p (network x mask)
unfolding apply_mask
apply_mask-ntop shift_32 x mask h lo hi = elim (Bool-cases (mask == 32)) [
  | inl e ↦ rw e (
      prefix-ntop 15 x (omega arith)
      ∙ ap tcp_ip_covert_ip_n_to_p (sym (network_id x mask (ground arith))))
  | inr n ↦ rw (n, p_to_n-ntop x h) (unfold network in ground arith)
]
