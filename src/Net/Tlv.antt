-- ===== src/Net/Tlv.antt =====
-- utils.c and utils.h: buffers of TLVs, each a type byte, a length byte and that many bytes of data.
use networking_protocol_deve.Base.{
  ℕ, zero, suc, ◌+◌, ◌%◌, ◌^◌, Bool, true, false, Option, none, some, List, [], ◌∷◌, ◌++◌, ◌==◌,
  ltb, if◌then◌else◌, get_or, take, drop,
}
pub mod Search

-- A buffer with a pointer into it: the bytes before the pointer and those from it on.
pub record TlvBuffer : Type 0 where
  pub written : List ℕ
  pub left : List ℕ

-- `tlv_buffer_insert_tlv` at the pointer, which moves behind the TLV
unfoldable pub tlv_buffer_insert_tlv : TlvBuffer → ℕ → ℕ → List ℕ → TlvBuffer
tlv_buffer_insert_tlv b tlv_no data_len value = record {
  written = b.written ++ (tlv_no ∷ data_len ∷ take data_len value);
  left = drop data_len (drop 2 b.left);
}

-- The loop of ITERATE_TLV_BEGIN in `tlv_buffer_get_particular_tlv`, on fuel, from `tlv_ptr` on: the
-- value and its length. The length of what has been passed is an `unsigned int`.
unfoldable pub tlv_loop : ℕ → List ℕ → ℕ → ℕ → ℕ → Option (List ℕ × ℕ)
tlv_loop zero bytes len tlv_size tlv_no = none
tlv_loop (suc fuel) bytes len tlv_size tlv_no =
    let type = get_or bytes 0 0 in
    let length = get_or bytes 1 0 in
    let rest =
      tlv_loop fuel (drop length (drop 2 bytes)) ((len + length + 2) % 2 ^ 32) tlv_size tlv_no in
    if ltb len tlv_size
    then (if type == tlv_no then some (take length (drop 2 bytes), length) else rest)
    else none

-- `tlv_buffer_get_particular_tlv`; a round passes two bytes at least, so `tlv_buff_size` rounds and one
-- more to see the end are enough.
unfoldable pub tlv_buffer_get_particular_tlv : List ℕ → ℕ → ℕ → Option (List ℕ × ℕ)
unfolding tlv_loop
tlv_buffer_get_particular_tlv tlv_buff tlv_buff_size tlv_no =
    tlv_loop (suc tlv_buff_size) tlv_buff 0 tlv_buff_size tlv_no
