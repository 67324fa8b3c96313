-- ===== src/Layer2/MacTable/Learning.antt =====
-- What the switch knows after it has learnt an address, and that the table keeps one entry for each.
use networking_protocol_deve.Base.{
  ◌≡◌, refl, sym, ◌∙◌, true, false, Option, none, some, [], ◌∷◌, All, arith, Bool-cases, inl, inr,
}
use networking_protocol_deve.Base.CString.{
  Chars, strncmp_eq, prefix, strncmp_eq_refl, strncmp_eq-congr, strncmp_eq_comm,
}
use networking_protocol_deve.Net.{if_name_size}
use networking_protocol_deve.Layer2.MacTable.{
  MacEntry, MacTable, mac_size, mac_table_lookup, delete_mac_table_entry, is_mac_table_entry_equal,
  mac_table_entry_add, store_mac_entry, l2_switch_perform_mac_learning,
}

-- no entry of the table has this address, as `strncmp` compares them
abbrev pub Absent : Chars → MacTable → Type 0
Absent mac t = All (λ e. strncmp_eq mac_size e.mac mac ≡ false) t

-- one entry for each address
abbrev pub Unique : MacTable → Type 0
Unique [] = Unit
Unique (e ∷ t) = Absent e.mac t × Unique t

lookup_found :
    (t : MacTable) (mac : Chars) {e : MacEntry}
    → mac_table_lookup t mac ≡ some e
    → strncmp_eq mac_size e.mac mac ≡ true
unfolding mac_table_lookup
lookup_found [] mac e = cc
lookup_found (x ∷ t) mac {e = e'} e = ground (arith, lookup_found t mac {e = e'})

lookup_none : (t : MacTable) (mac : Chars) → mac_table_lookup t mac ≡ none → Absent mac t
unfolding mac_table_lookup
lookup_none [] mac e = tt
lookup_none (x ∷ t) mac e = ground (arith, lookup_none t mac)

-- equal addresses are absent from the same tables
Absent-congr :
    (t : MacTable) (a b : Chars) → strncmp_eq mac_size a b ≡ true → Absent a t → Absent b t
Absent-congr [] a b h n = tt
Absent-congr (x ∷ t) a b h n = (
  strncmp_eq_comm mac_size x.mac b
      ∙ sym (strncmp_eq-congr mac_size a b x.mac h)
      ∙ strncmp_eq_comm mac_size a x.mac
      ∙ n.0,
  Absent-congr t a b h n.1,
)

delete_all : (t : MacTable) (mac : Chars) → Unique t → Absent mac (delete_mac_table_entry t mac)
unfolding delete_mac_table_entry
delete_all [] mac u = tt
delete_all (x ∷ t) mac u = elim (Bool-cases (strncmp_eq mac_size x.mac mac)) [
  | inl hit ↦ rw hit (Absent-congr t x.mac mac hit u.0)
  | inr miss ↦ rw miss (miss, delete_all t mac u.1)
]

delete-Absent :
    (t : MacTable) (mac other : Chars)
    → Absent other t
    → Absent other (delete_mac_table_entry t mac)
unfolding delete_mac_table_entry
delete-Absent [] mac other n = tt
delete-Absent (x ∷ t) mac other n = elim (Bool-cases (strncmp_eq mac_size x.mac mac)) [
  | inl hit ↦ rw hit n.1
  | inr miss ↦ rw miss (n.0, delete-Absent t mac other n.1)
]

delete-Unique : (t : MacTable) (mac : Chars) → Unique t → Unique (delete_mac_table_entry t mac)
unfolding delete_mac_table_entry
delete-Unique [] mac u = tt
delete-Unique (x ∷ t) mac u = elim (Bool-cases (strncmp_eq mac_size x.mac mac)) [
  | inl hit ↦ rw hit u.1
  | inr miss ↦ rw miss (delete-Absent t mac x.mac u.0, delete-Unique t mac u.1)
]

store-Unique :
    (o : Option MacEntry) (t : MacTable) (e : MacEntry)
    → mac_table_lookup t e.mac ≡ o
    → Unique t
    → Unique (store_mac_entry o t e).0
unfolding store_mac_entry
store-Unique none t e q u = (lookup_none t e.mac q, u)
store-Unique (some old) t e q u = elim (Bool-cases (is_mac_table_entry_equal old e)) [
  | inl same ↦ rw same u
  | inr new ↦ rw new (
    Absent-congr (delete_mac_table_entry t old.mac) old.mac e.mac (lookup_found t e.mac q)
        (delete_all t old.mac u),
    delete-Unique t old.mac u,
  )
]

-- Adding an entry to a table with one entry for each address keeps it so.
pub add-Unique : (t : MacTable) (e : MacEntry) → Unique t → Unique (mac_table_entry_add t e).0
add-Unique t e u = unfold mac_table_entry_add in store-Unique (mac_table_lookup t e.mac) t e refl u

-- deletion does not touch the entries of other addresses
lookup-delete_ne :
    (t : MacTable) (mac other : Chars)
    → strncmp_eq mac_size mac other ≡ false
    → mac_table_lookup (delete_mac_table_entry t mac) other ≡ mac_table_lookup t other
unfolding mac_table_lookup delete_mac_table_entry
lookup-delete_ne [] mac other n = refl
lookup-delete_ne (x ∷ t) mac other n =
    ground (arith, lookup-delete_ne t mac other n, strncmp_eq-congr mac_size x.mac mac other)

-- the port by which an address is found, and what is found for the others
record Known (t t' : MacTable) (e : MacEntry) (mac : Chars) : Type 0 where
  hit :
      strncmp_eq mac_size e.mac mac ≡ true
      → (x : MacEntry) × (mac_table_lookup t' mac ≡ some x)
        × (strncmp_eq if_name_size x.oif_name e.oif_name ≡ true)
  miss : strncmp_eq mac_size e.mac mac ≡ false → mac_table_lookup t' mac ≡ mac_table_lookup t mac

lookup-congr :
    (t : MacTable) (a b : Chars)
    → strncmp_eq mac_size a b ≡ true
    → mac_table_lookup t b ≡ mac_table_lookup t a
unfolding mac_table_lookup
lookup-congr [] a b h = refl
lookup-congr (x ∷ t) a b h = ground (
  arith,
  lookup-congr t a b h,
  strncmp_eq_comm mac_size x.mac a,
  strncmp_eq_comm mac_size x.mac b,
  strncmp_eq-congr mac_size a b x.mac h,
)

equal_names :
    (a b : MacEntry)
    → is_mac_table_entry_equal a b ≡ true
    → strncmp_eq if_name_size a.oif_name b.oif_name ≡ true
unfolding is_mac_table_entry_equal
equal_names a b h = ground arith

store-Known :
    (o : Option MacEntry) (t : MacTable) (e : MacEntry) (mac : Chars)
    → mac_table_lookup t e.mac ≡ o
    → Known t (store_mac_entry o t e).0 e mac
unfolding store_mac_entry mac_table_lookup
store-Known none t e mac q = record {
  hit = λ h. (e, rw h, strncmp_eq_refl if_name_size e.oif_name);
  miss = λ n. rw n;
}
store-Known (some old) t e mac q = elim (Bool-cases (is_mac_table_entry_equal old e)) [
  | inl same ↦ rw same (record {
    hit = λ h. (old, lookup-congr t e.mac mac h ∙ q, equal_names old e same);
    miss = λ n. refl;
  })
  | inr new ↦ rw new (record {
    hit = λ h. (e, rw h, strncmp_eq_refl if_name_size e.oif_name);
    miss = λ n. rw n (
        lookup-delete_ne t old.mac mac
          (strncmp_eq-congr mac_size old.mac e.mac mac (lookup_found t e.mac q) ∙ n));
  })
]

-- After learning, an address that compares equal to the one learnt is found with the name of the
-- port that it was learnt on, and every other address is found as before.
pub lookup-learning :
    (t : MacTable) (src_mac if_name mac : Chars)
    → let t' = l2_switch_perform_mac_learning t src_mac if_name in
      (strncmp_eq mac_size src_mac mac ≡ true
        → (e : MacEntry) × (mac_table_lookup t' mac ≡ some e)
          × (strncmp_eq if_name_size e.oif_name (prefix 15 if_name) ≡ true))
      × (strncmp_eq mac_size src_mac mac ≡ false → mac_table_lookup t' mac ≡ mac_table_lookup t mac)
lookup-learning t src_mac if_name mac = (known.hit, known.miss)
  where
    e : MacEntry
    e = record { mac = src_mac; oif_name = prefix 15 if_name }

    known : Known t (l2_switch_perform_mac_learning t src_mac if_name) e mac
    known =
        unfold l2_switch_perform_mac_learning in
        store-Known (mac_table_lookup t src_mac) t e mac refl

-- Addresses whose first byte is 0 are not told apart: once one is learnt, each is found on its port.
pub learning-zero_first :
    (t : MacTable) (rest other if_name : Chars)
    → (e : MacEntry) × (mac_table_lookup
          (l2_switch_perform_mac_learning t (0 ∷ rest) if_name)
          (0 ∷ other)
        ≡ some e)
      × (strncmp_eq if_name_size e.oif_name (prefix 15 if_name) ≡ true)
learning-zero_first t rest other if_name =
    (lookup-learning t (0 ∷ rest) if_name (0 ∷ other)).0 (unfold strncmp_eq in refl)
