-- ===== src/Isis/Arrival.antt =====
-- Layer5/isis/isis_pkt.c and isis_lspdb.c: LSPs that arrive one after the other, in any order.
use mathlib.Core.Path.{subst}
use mathlib.Core.List.{Permᴰ}
use networking_protocol_deve.Base.{
  ℕ, ◌/◌, ◌%◌, ◌≡◌, refl, sym, ap, ◌∙◌, true, false, Option, some, List, [], ◌∷◌, ◌==◌, ◌>>=◌,
  arith, All,
}
use networking_protocol_deve.Isis.Lspdb.{LspHdr, LspNode, is_purge, isis_process_lsp_pkt}
use networking_protocol_deve.Isis.Newest.{IsDb, HasOwn, rank, heard}
use networking_protocol_deve.Isis.Settled.{install_total}

-- LSPs that arrive on interfaces, one after the other, where the protocol runs
unfoldable pub process_all : LspNode → List (ℕ × LspHdr) → Option LspNode
unfolding isis_process_lsp_pkt
process_all n [] = some n
process_all n ((i, h) ∷ l) = do n' ← isis_process_lsp_pkt true true false n i h; process_all n' l

-- the greatest rank that packets give to a router id
unfoldable pub newest : ℕ → List (ℕ × LspHdr) → ℕ → ℕ
newest q [] m = m
newest q ((i, h) ∷ l) m = newest q l (heard q h m)

-- No purge bit is set.
abbrev pub IsPlain : ℕ × LspHdr → Type 0
IsPlain (i, h) = (h.flags / 2 % 2 == 1) ≡ false

-- On a node that has an LSP of its own and a database whose packets stand at their router ids, LSPs
-- without the purge bit that arrive on interfaces, whatever their TLVs, are all processed: no
-- assertion of `isis_install_lsp` fails, and the sequence number at each router id other than the
-- node's own then is the greatest of the one it had and those received for it.
pub process_all-newest :
    (n : LspNode) (l : List (ℕ × LspHdr))
    → IsDb n.lspdb
    → HasOwn n
    → All IsPlain l
    → (n' : LspNode) × (process_all n l ≡ some n')
      × IsDb n'.lspdb
      × ((q : ℕ) → (q == n.lo_addr) ≡ false → rank (n'.lspdb q) ≡ newest q l (rank (n.lspdb q)))
unfolding process_all newest isis_process_lsp_pkt is_purge
process_all-newest n [] k w t = (n, refl, k, λ q o. refl)
process_all-newest n ((i, h) ∷ l) k w (t, ts) =
    let (n', run, k', lo, w', r) = install_total n i h k w t in
    let (n'', rest, k'', r') = process_all-newest n' l k' w' ts in
    (n'', rw (run) rest, k'', λ q o. r' q (ap (λ x. q == x) lo ∙ o) ∙ ap (newest q l) (r q o))

heard-swap : (q : ℕ) (a b : LspHdr) (m : ℕ) → heard q b (heard q a m) ≡ heard q a (heard q b m)
heard-swap q a b m = ground arith

newest-Perm :
    (q : ℕ) {l l' : List (ℕ × LspHdr)} → Permᴰ l l' → (m : ℕ) → newest q l m ≡ newest q l' m
unfolding newest
newest-Perm q Permᴰ.nil m = refl
newest-Perm q (Permᴰ.cons {b = (i, h)} {l₁ = l} e d) m =
    ap (λ x. newest q (x ∷ l) m) e ∙ newest-Perm q d (heard q h m)
newest-Perm q (Permᴰ.swap {b = b} {a' = (i, h)} {b' = (j, k)} {l = l} e f) m =
    ap (λ x. newest q (x ∷ b ∷ l) m) e
    ∙ ap (λ y. newest q ((j, k) ∷ y ∷ l) m) f
    ∙ ap (newest q l) (heard-swap q k h m)
newest-Perm q (Permᴰ.trans d f) m = newest-Perm q d m ∙ newest-Perm q f m

All-Perm : {l l' : List (ℕ × LspHdr)} → Permᴰ l l' → All IsPlain l → All IsPlain l'
All-Perm Permᴰ.nil t = t
All-Perm (Permᴰ.cons e d) (t, ts) = (subst IsPlain e t, All-Perm d ts)
All-Perm (Permᴰ.swap e f) (t, (u, ts)) = (subst IsPlain f u, (subst IsPlain e t, ts))
All-Perm (Permᴰ.trans d f) t = All-Perm f (All-Perm d t)

-- On a node that has an LSP of its own and a database whose packets stand at their router ids, the
-- same LSPs without the purge bit, which arrive on interfaces in two orders, are all processed in
-- both: no assertion of `isis_install_lsp` fails, and the two databases then hold the same sequence
-- number at every router id other than the node's own.
pub process_all-any_order :
    (n : LspNode) {l l' : List (ℕ × LspHdr)}
    → IsDb n.lspdb
    → HasOwn n
    → All IsPlain l
    → Permᴰ l l'
    → (a : LspNode) × (b : LspNode) × (process_all n l ≡ some a)
      × (process_all n l' ≡ some b)
      × ((q : ℕ) → (q == n.lo_addr) ≡ false → rank (a.lspdb q) ≡ rank (b.lspdb q))
process_all-any_order n {l} {l'} k w t d =
    let (a, ea, ka, ra) = process_all-newest n l k w t in
    let (b, eb, kb, rb) = process_all-newest n l' k w (All-Perm d t) in
    (a, b, ea, eb, λ q o. ra q o ∙ newest-Perm q d (rank (n.lspdb q)) ∙ sym (rb q o))
