-- ===== src/Forwarder/Txid.antt =====
-- The loop that draws a transaction number.
use dns_security_dataplane.Base.{
  ℕ, suc, ◌<◌, ◌≡◌, ◌≢◌, refl, sym, ◌∙◌, inl, inr, List, [], ◌∷◌, none, some, length, nat_Eq, arith,
  Option-cases, All,
}
use dns_security_dataplane.Base.Map.{find, erase, IsMap, find-erase, erase-IsMap, length-erase}
use dns_security_dataplane.Forwarder.{PendingTransaction, draw_txid, generate_unique_txid}

-- The numbers drawn are distinct and not 0.
abbrev pub AllFresh : List ℕ → Type 0
AllFresh [] = Unit
AllFresh (d ∷ draws) = (d ≢ 0) × All (λ e. e ≢ d) draws × AllFresh draws

draw_txid_sound :
    (txid : ℕ) (draws : List ℕ) (table : List (ℕ × PendingTransaction)) {r : ℕ}
    → draw_txid txid draws table ≡ some r
    → (r ≢ 0) × (find r table ≡ none)
unfolding draw_txid
draw_txid_sound txid [] table h = ground arith
draw_txid_sound txid (d ∷ draws) table {r} h = ground (arith, draw_txid_sound d draws table {r = r})

-- The number of an answer is not 0 and not in use.
pub generate_sound :
    (draws : List ℕ) (table : List (ℕ × PendingTransaction)) {r : ℕ}
    → generate_unique_txid draws table ≡ some r
    → (r ≢ 0) × (find r table ≡ none)
generate_sound draws table h = draw_txid_sound 0 draws table h

draw_txid-erase :
    (d txid : ℕ) (draws : List ℕ) (table : List (ℕ × PendingTransaction))
    → txid ≢ d
    → All (λ e. e ≢ d) draws
    → draw_txid txid draws (erase d table) ≡ draw_txid txid draws table
unfolding draw_txid
draw_txid-erase d txid [] table h a = ground (arith, find-erase d txid table)
draw_txid-erase d txid (e ∷ draws) table h a =
    ground (arith, find-erase d txid table, draw_txid-erase d e draws table a.0 a.1)

draw_free :
    (d : ℕ) (draws : List ℕ) (table : List (ℕ × PendingTransaction))
    → d ≢ 0
    → find d table ≡ none
    → draw_txid d draws table ≡ some d
unfolding draw_txid
draw_free d [] table n h = ground arith
draw_free d (e ∷ draws) table n h = ground arith

draw_used :
    (d e : ℕ) (draws : List ℕ) (table : List (ℕ × PendingTransaction)) (tx : PendingTransaction)
    → find d table ≡ some tx
    → draw_txid d (e ∷ draws) table ≡ draw_txid e draws table
unfolding draw_txid
draw_used d e draws table tx h = ground arith

draw_next :
    (d : ℕ) (draws : List ℕ) (table : List (ℕ × PendingTransaction))
    → AllFresh draws
    → d ≢ 0
    → All (λ e. e ≢ d) draws
    → IsMap table
    → length table < suc (length draws)
    → (r : ℕ) × (draw_txid d draws table ≡ some r)
draw_next d [] table f n a m h = elim (Option-cases (find d table)) [
  | inl free ↦ (d, draw_free d [] table n free)
  | inr (tx, used) ↦ absurd (omega (arith, length-erase d tx table m used))
]
draw_next d (e ∷ draws) table f n a m h = elim (Option-cases (find d table)) [
  | inl free ↦ (d, draw_free d (e ∷ draws) table n free)
  | inr (tx, used) ↦
      let (r, g) =
        draw_next e draws (erase d table) f.2 f.0 f.1 (erase-IsMap d table m)
          (omega (arith, length-erase d tx table m used)) in
      (r, draw_used d e draws table tx used ∙ sym (draw_txid-erase d e draws table a.0 a.1) ∙ g)
]

-- The loop ends: with at least one draw more than there are pending transactions, all distinct and
-- none of them 0, it finds a number that is not 0 and not in use.
pub generate_total :
    (draws : List ℕ) (table : List (ℕ × PendingTransaction))
    → AllFresh draws
    → IsMap table
    → length table < length draws
    → (r : ℕ) × (generate_unique_txid draws table ≡ some r) × (r ≢ 0) × (find r table ≡ none)
generate_total [] table f m h = elim h [ ]
generate_total (d ∷ draws) table f m h =
    let (r, e) = draw_next d draws table f.2 f.0 f.1 m h in
    let first : draw_txid 0 (d ∷ draws) table ≡ draw_txid d draws table =
      unfold draw_txid in refl in
    let g : generate_unique_txid (d ∷ draws) table ≡ some r = first ∙ e in
    let (n, u) = generate_sound (d ∷ draws) table g in (r, g, n, u)
