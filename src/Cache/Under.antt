-- ===== src/Cache/Under.antt =====
-- The key of a question, as a text.
use dns_security_dataplane.Base.{ℕ, ◌≡◌, refl, List, ◌∷◌, ◌++◌}
use dns_security_dataplane.Text.{to_string}
use dns_security_dataplane.Cache.{make_key}

-- The name, the type and the class, the last two in decimal, with a colon between.
abbrev pub key_under : List ℕ → ℕ → ℕ → List ℕ
key_under qname qtype qclass = qname ++ b':' ∷ (to_string qtype ++ b':' ∷ to_string qclass)

pub make_key-key_under :
    (qname : List ℕ) (qtype qclass : ℕ) → make_key qname qtype qclass ≡ key_under qname qtype qclass
unfolding make_key
make_key-key_under qname qtype qclass = refl
