-- ===== src/Examples/Caching.antt =====
-- The cache.
use dns_security_dataplane.Base.{
  ℕ, ◌+◌, ◌*◌, ◌≡◌, refl, List, [], ◌∷◌, some, none, ok, arith, bytes_Eq, bytes_eq,
}
use dns_security_dataplane.Base.Map.{find, erase}
use dns_security_dataplane.Text.{codes}
use dns_security_dataplane.Cache.Lifetime.{lifetime}
use dns_security_dataplane.Cache.Under.{key_under}
use dns_security_dataplane.Cache.{Cache, insert, new_cache}
use dns_security_dataplane.Cache.Valid.{IsValid}
use dns_security_dataplane.Cache.Keys.{make_key-injective}
use dns_security_dataplane.Cache.Inserts.{Inserts}
use dns_security_dataplane.Cache.Reads.{insert-Inserts}
use dns_security_dataplane.Cache.History.{Question, Call}
use dns_security_dataplane.Cache.Questions.{keyed, question_Eq}
use dns_security_dataplane.Cache.Lru.{look_up, store, drop_last}
use dns_security_dataplane.Cache.Refines.{held}
use dns_security_dataplane.Cache.Answers.{answers, ideal, answers-ideal}
use dns_security_dataplane.Packets.{empty_cache, empty-IsValid, response_bytes}

abbrev aaaa : ℕ
aaaa = 28

abbrev internet : ℕ
internet = 1

make_key-injective_example : (codes "a:1" ≡ codes "a:1") × (aaaa ≡ aaaa) × (internet ≡ internet)
make_key-injective_example =
    make_key-injective (codes "a:1") (codes "a:1") aaaa aaaa internet internet refl

abbrev filled : Cache
filled = (insert-Inserts empty_cache (codes "ww.b") 1 1 response_bytes 60 2 5 empty-IsValid).after

filled-IsValid : IsValid filled
filled-IsValid =
    (insert-Inserts empty_cache (codes "ww.b") 1 1 response_bytes 60 2 5 empty-IsValid).valid

insert-Inserts_example :
    Inserts
      (key_under (codes "x.b") 1 1)
      response_bytes
      (6 + lifetime 0 * 1_000_000_000)
      2
      filled
      (insert filled (codes "x.b") 1 1 response_bytes 0 2 6)
insert-Inserts_example = insert-Inserts filled (codes "x.b") 1 1 response_bytes 0 2 6 filled-IsValid

abbrev question : Question
question = record { qname = codes "ww.b"; qtype = 1; qclass = 1 }

abbrev other_question : Question
other_question = record { qname = codes "x.b"; qtype = 28; qclass = 1 }

-- The second write evicts the second entry, since the read moved the first to the front.
abbrev eviction : List Call
eviction =
    Call.put question response_bytes 60 2 5
    ∷ Call.put other_question response_bytes 60 2 5
    ∷ Call.look question 2 9
    ∷ Call.put (record { qname = codes "y.b"; qtype = 1; qclass = 1 }) response_bytes 60 2 5
    ∷ Call.look other_question 2 9
    ∷ Call.look question 2 9
    ∷ []

answers-ideal_example :
    (c : Cache) × (answers eviction (new_cache 2) ≡ ok (c, (ideal 2 eviction []).1))
    × (held c ≡ keyed (ideal 2 eviction []).0)
answers-ideal_example = answers-ideal eviction 2 (omega arith)

eviction_answers :
    (ideal 2 eviction []).1
    ≡ some
        (record { response = response_bytes; expires_at = 60_000_000_005; policy_generation = 2 })
      ∷ none
      ∷ some
          (record { response = response_bytes; expires_at = 60_000_000_005; policy_generation = 2 })
      ∷ []
unfolding ideal look_up store drop_last find bytes_eq erase
eviction_answers = refl
