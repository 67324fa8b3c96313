-- ===== src/Net/Ip.antt =====
-- utils.c and net.c: IPv4 addresses as numbers in host order and as text, masks and subnets.
use networking_protocol_deve.Base.{
  ℕ, ◌+◌, ◌-◌, ◌*◌, ◌/◌, ◌%◌, ◌^◌, Bool, true, false, ◌&&◌, not, Option, none, some, List, [], ◌∷◌,
  ◌++◌, ◌==◌, ltb, leb, if◌then◌else◌,
}
use networking_protocol_deve.Base.CString.{Chars, strncmp_eq, prefix}
pub mod RoundTrip

-- the decimal digits of a byte
unfoldable pub octet_chars : ℕ → Chars
octet_chars b =
    if ltb b 10
    then (b'0' + b) ∷ []
    else if ltb b 100
    then (b'0' + b / 10) ∷ (b'0' + b % 10) ∷ []
    else (b'0' + b / 100) ∷ (b'0' + b / 10 % 10) ∷ (b'0' + b % 10) ∷ []

-- `tcp_ip_covert_ip_n_to_p`: `htonl` and `inet_ntop` print the highest byte first.
unfoldable pub tcp_ip_covert_ip_n_to_p : ℕ → Chars
tcp_ip_covert_ip_n_to_p ip_addr =
    octet_chars (ip_addr / 2 ^ 24 % 256)
    ++ (b'.'
        ∷ (octet_chars (ip_addr / 2 ^ 16 % 256)
            ++ (b'.'
                ∷ (octet_chars (ip_addr / 2 ^ 8 % 256) ++ (b'.' ∷ octet_chars (ip_addr % 256))))))

-- The state of `inet_pton`: a digit has been seen in this octet, octets begun, the value of this
-- octet, the value of those before it.
pub record Pton : Type 0 where
  pub saw_digit : Bool
  pub octets : ℕ
  pub current : ℕ
  pub above : ℕ

abbrev pub is_digit : ℕ → Bool
is_digit c = leb b'0' c && leb c b'9'

-- one digit: no leading zero, no value above 255, no fifth octet
unfoldable pub pton_digit : ℕ → Pton → Option Pton
pton_digit d p =
    let new = p.current * 10 + d in
    if p.saw_digit && p.current == 0
    then none
    else if ltb 255 new
    then none
    else if p.saw_digit
    then some (record p { current = new })
    else if p.octets == 4
    then none
    else some (record p { saw_digit = true; octets = p.octets + 1; current = new })

-- one character
unfoldable pub pton_step : ℕ → Pton → Option Pton
unfolding pton_digit
pton_step c p =
    if is_digit c
    then pton_digit (c - b'0') p
    else if not (c == b'.' && p.saw_digit)
    then none
    else if p.octets == 4
    then none
    else some (record p { saw_digit = false; current = 0; above = p.above * 256 + p.current })

unfoldable pub pton_loop : Chars → Pton → Option ℕ
pton_loop [] p = if ltb p.octets 4 then none else some (p.above * 256 + p.current)
pton_loop (c ∷ s) p = elim (pton_step c p) [ none ↦ none | some q ↦ pton_loop s q ]

-- `inet_pton (AF_INET, …)`, as a number in host order
unfoldable pub inet_pton : Chars → Option ℕ
inet_pton s = pton_loop s (record { saw_digit = false; octets = 0; current = 0; above = 0 })

-- `tcp_ip_covert_ip_p_to_n`: what `inet_pton` does not accept leaves the 0.
unfoldable pub tcp_ip_covert_ip_p_to_n : Chars → ℕ
tcp_ip_covert_ip_p_to_n ip_addr = elim (inet_pton ip_addr) [ none ↦ 0 | some n ↦ n ]

-- x & (~0 << k): the lower `k` bits cleared
abbrev pub clear_low : ℕ → ℕ → ℕ
clear_low x k = x / 2 ^ k * 2 ^ k

-- `binary_prefix & subnet_mask` for a mask below 32. For mask 0 the source shifts a 32-bit word by
-- 32, which C leaves undefined: `shift_32 x` stands for what comes of it.
unfoldable pub mask_bits : (ℕ → ℕ) → ℕ → ℕ → ℕ
mask_bits shift_32 x mask = if mask == 0 then shift_32 x else clear_low x (32 - mask)

-- `apply_mask`, for masks up to 32
unfoldable pub apply_mask : (ℕ → ℕ) → Chars → ℕ → Chars
unfolding mask_bits
apply_mask shift_32 pfx mask =
    if mask == 32
    then prefix 15 pfx
    else tcp_ip_covert_ip_n_to_p (mask_bits shift_32 (tcp_ip_covert_ip_p_to_n pfx) mask)

-- `is_same_subnet`
unfoldable pub is_same_subnet : (ℕ → ℕ) → Chars → ℕ → Chars → Bool
is_same_subnet shift_32 ip_addr mask other_ip_addr =
    strncmp_eq 16 (apply_mask shift_32 ip_addr mask) (apply_mask shift_32 other_ip_addr mask)
