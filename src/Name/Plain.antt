-- ===== src/Name/Plain.antt =====
-- The wire form without compression is a case of Name/Spelling.
use dns_security_dataplane.Base.{
  ℕ, suc, ◌+◌, ◌≡◌, refl, sym, ap, ◌∙◌, Bool, true, false, List, [], ◌∷◌, ◌++◌, length, All,
  length-append, drop, drop-suc, get_elem?_of_drop, arith,
}
use mathlib.Core.List.{append_assoc}
use dns_security_dataplane.Name.Encode.{encode_name, IsLabel, drop_label}
use dns_security_dataplane.Name.Spelling.{Spells, root, then_label, count}

count-add :
    (jumped : Bool) (a b c : ℕ) → c ≡ a + b → count jumped c ≡ count jumped a + count jumped b
count-add true a b c e = omega arith
count-add false a b c e = e

pub encode_name-Spells :
    (buffer : List ℕ) (o : ℕ) (jumped : Bool) (depth : ℕ) (ls : List (List ℕ)) (rest : List ℕ)
    → All IsLabel ls
    → drop o buffer ≡ encode_name ls ++ rest
    → Spells buffer o jumped depth ls (count jumped (length (encode_name ls)))
unfolding encode_name
encode_name-Spells buffer o jumped depth [] rest a h =
    root o jumped depth (count jumped 1) (get_elem?_of_drop buffer o h) refl
encode_name-Spells buffer o jumped depth (l ∷ ls) rest (is_label, a) h =
    let flat : drop o buffer ≡ length l ∷ (l ++ (encode_name ls ++ rest)) =
      h ∙ ap (λ cs. length l ∷ cs) (append_assoc l (encode_name ls) rest) in
    let text = drop-suc buffer o flat in
    let behind = drop_label buffer rest l (encode_name ls ++ rest) (suc o) text in
    let next : o + (1 + length l) ≡ suc o + length l = omega arith in
    then_label o jumped depth l ls (count jumped (length (encode_name ls))) _ is_label
      (get_elem?_of_drop buffer o flat) (text ∙ ap (λ cs. l ++ cs) (sym behind))
      (encode_name-Spells buffer (o + (1 + length l)) jumped depth ls rest a (rw next behind))
      (count-add jumped (1 + length l) (length (encode_name ls)) _
        (omega (arith, length-append l (encode_name ls))))
