-- ===== src/Tests/TlvTests.antt =====
-- Two TLVs in a buffer.
use networking_protocol_deve.Base.{◌≡◌, refl, some, List, [], ◌∷◌, ◌++◌, arith, length}
use networking_protocol_deve.Net.Tlv.{
  TlvBuffer, tlv_buffer_insert_tlv, tlv_buffer_get_particular_tlv,
}
use networking_protocol_deve.Net.Tlv.Search.{Tlv, insert_all, get-insert_all}

abbrev empty : TlvBuffer
empty = record { written = []; left = 0 ∷ 0 ∷ 0 ∷ 0 ∷ 0 ∷ 0 ∷ 0 ∷ 0 ∷ [] }

abbrev tlvs : List Tlv
tlvs = (7, 1 ∷ 2 ∷ []) ∷ (9, 3 ∷ []) ∷ []

written_size : length (insert_all empty tlvs).written ≡ 7
unfolding insert_all tlv_buffer_insert_tlv
written_size = refl

get-insert_all_example :
    tlv_buffer_get_particular_tlv
      ((insert_all empty tlvs).written ++ (5 ∷ []))
      (length (insert_all empty tlvs).written)
      9
    ≡ some (3 ∷ [], 1)
get-insert_all_example =
    get-insert_all empty tlvs 9 (5 ∷ []) refl ((omega arith), ((omega arith), tt))
      (omega (arith, written_size))
