-- ===== src/Net/Tlv/Search.antt =====
-- Finding the TLVs that have been inserted.
use networking_protocol_deve.Base.{
  ℕ, zero, suc, ◌+◌, ◌%◌, ◌^◌, ◌<◌, ◌≡◌, refl, sym, ap, ◌∙◌, true, Option, none, some, List, [],
  ◌∷◌, ◌++◌, ◌==◌, ltb, arith, if◌then◌else◌, take, drop, length, length-append, All,
}
use mathlib.Core.List.{append-nil, append_assoc}
use networking_protocol_deve.Net.Tlv.{
  TlvBuffer, tlv_buffer_insert_tlv, tlv_loop, tlv_buffer_get_particular_tlv,
}

-- a TLV, by its type and its data
abbrev pub Tlv : Type 0
Tlv = ℕ × List ℕ

abbrev encode : List Tlv → List ℕ
encode [] = []
encode (t ∷ ts) = t.0 ∷ length t.1 ∷ (t.1 ++ encode ts)

-- the first TLV of a type: its data and their length
abbrev pub first_of : List Tlv → ℕ → Option (List ℕ × ℕ)
first_of [] tlv_no = none
first_of (t ∷ ts) tlv_no = if t.0 == tlv_no then some (t.1, length t.1) else first_of ts tlv_no

-- the TLVs inserted one after the other
unfoldable pub insert_all : TlvBuffer → List Tlv → TlvBuffer
insert_all b [] = b
insert_all b (t ∷ ts) = insert_all (tlv_buffer_insert_tlv b t.0 (length t.1) t.1) ts

drop-append : (xs ys : List ℕ) → drop (length xs) (xs ++ ys) ≡ ys
drop-append [] ys = refl
drop-append (x ∷ xs) ys = drop-append xs ys

take-append : (xs ys : List ℕ) → take (length xs) (xs ++ ys) ≡ xs
take-append [] ys = refl
take-append (x ∷ xs) ys = ap (λ l. x ∷ l) (take-append xs ys)

loop_finds :
    (ts : List Tlv) (fuel len size tlv_no : ℕ) (tail : List ℕ)
    → length (encode ts) < fuel
    → len + length (encode ts) ≡ size
    → size < 2 ^ 32
    → tlv_loop fuel (encode ts ++ tail) len size tlv_no ≡ first_of ts tlv_no
unfolding tlv_loop
loop_finds ts zero len size tlv_no tail f e s = absurd (omega arith)
loop_finds [] (suc fuel) len size tlv_no tail f e s = ground arith
loop_finds (t ∷ ts) (suc fuel) len size tlv_no tail f e s =
    let sum = length-append t.1 (encode ts) in
    let wrap : (len + length t.1 + 2) % 2 ^ 32 ≡ len + length t.1 + 2 = omega (arith, sum) in
    let more : ltb len size ≡ true = ground (arith, sum) in
    let rest =
      loop_finds ts fuel (len + length t.1 + 2) size tlv_no tail (omega (arith, sum))
        (omega (arith, sum)) s in
    let tl : List ℕ = encode ts ++ tail in
    let whole : (t.1 ++ encode ts) ++ tail ≡ t.1 ++ tl = append_assoc t.1 (encode ts) tail in
    rw (more, wrap, whole, drop-append t.1 tl, take-append t.1 tl, rest) refl

insert_all-written :
    (ts : List Tlv) (b : TlvBuffer) → (insert_all b ts).written ≡ b.written ++ encode ts
unfolding insert_all tlv_buffer_insert_tlv
insert_all-written [] b = sym (append-nil b.written)
insert_all-written (t ∷ ts) b =
    let whole : take (length t.1) t.1 ≡ t.1 =
      ap (take (length t.1)) (sym (append-nil t.1)) ∙ take-append t.1 [] in
    insert_all-written ts (tlv_buffer_insert_tlv b t.0 (length t.1) t.1)
    ∙ append_assoc b.written (t.0 ∷ length t.1 ∷ take (length t.1) t.1) (encode ts)
    ∙ ap (λ l. b.written ++ (t.0 ∷ length t.1 ∷ (l ++ encode ts))) whole

-- After TLVs have been inserted into a buffer from its start on, the search of the bytes written, whatever
-- stands behind them, finds the data and the length of the first TLV of a type, and nothing for a
-- type that was not inserted. The data of each TLV fit its length byte, and the bytes written are
-- fewer than 2 ^ 32.
pub get-insert_all :
    (b : TlvBuffer) (ts : List Tlv) (tlv_no : ℕ) (tail : List ℕ)
    → b.written ≡ []
    → All (λ t. (t.0 < 256) × (length t.1 < 256)) ts
    → length (insert_all b ts).written < 2 ^ 32
    → tlv_buffer_get_particular_tlv
        ((insert_all b ts).written ++ tail)
        (length (insert_all b ts).written)
        tlv_no
      ≡ first_of ts tlv_no
unfolding tlv_buffer_get_particular_tlv
get-insert_all b ts tlv_no tail e fit s =
    let all : (insert_all b ts).written ≡ encode ts =
      insert_all-written ts b ∙ ap (λ l. l ++ encode ts) e in
    let small : length (encode ts) < 2 ^ 32 = rw all at s in
    rw all (
      loop_finds ts (suc (length (encode ts))) 0 (length (encode ts)) tlv_no tail (omega arith)
        (omega arith) small)
