-- ===== src/Examples/Entropies.antt =====
-- The entropy alert, with whole numbers in place of `double`.
use mathlib.Core.List.{Permᴰ}
use mathlib.Core.List.Permᴰ.{cons, swap}
use dns_security_dataplane.Base.{
  ℕ, ◌+◌, ◌*◌, ◌≡◌, ◌≢◌, refl, inl, inr, leb, true, ◌∷◌, ◌++◌, All, arith,
}
use dns_security_dataplane.Text.{codes}
use dns_security_dataplane.Ipc.{find_text}
use dns_security_dataplane.Entropy.{
  Doubles, is_suspicious_entropy, is_suspicious_entropy-Perm, calculate, add_up, tally, increment,
}

-- Not a logarithm: enough to run the loop.
abbrev counting : Doubles ℕ
counting = record {
  of_nat = λ n. n;
  sub = λ a b. a + b;
  mul = λ a b. a * b;
  div = λ a b. a;
  log2 = λ a. a;
  at_least = λ a b. leb b a;
}

no_dots : All (λ c. c ≢ b'.') (codes "aabcdefg")
no_dots = (
  omega arith,
  (
    omega arith,
    (omega arith, (omega arith, (omega arith, (omega arith, (omega arith, (omega arith, tt)))))),
  ),
)

no_dots' : All (λ c. c ≢ b'.') (codes "abacdefg")
no_dots' = (
  omega arith,
  (
    omega arith,
    (omega arith, (omega arith, (omega arith, (omega arith, (omega arith, (omega arith, tt)))))),
  ),
)

swapped : Permᴰ (codes "aabcdefg") (codes "abacdefg")
swapped = cons refl (swap refl refl)

is_suspicious_entropy-Perm_example :
    is_suspicious_entropy counting (codes "aabcdefg" ++ b'.' ∷ codes "com") 9
    ≡ is_suspicious_entropy counting (codes "abacdefg") 9
is_suspicious_entropy-Perm_example =
    is_suspicious_entropy-Perm counting (codes "aabcdefg" ++ b'.' ∷ codes "com") (codes "abacdefg")
      9 swapped (no_dots, inr (codes "com", refl)) (no_dots', inl refl)

alerted : is_suspicious_entropy counting (codes "aabcdefg.com") 9 ≡ true
unfolding is_suspicious_entropy calculate add_up tally increment find_text
alerted = refl
