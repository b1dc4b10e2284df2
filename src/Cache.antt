-- ===== src/Cache.antt =====
-- dataplane/include/engine/cache.h and dataplane/src/engine/cache.cpp: `DnsCache`.
-- A node of the list `lru_order_` has a number, and an iterator is the number of its node; so an
-- iterator to a node that is gone shows as `fault`, as does `back()` of an empty list. Each method
-- holds the mutex throughout, so a call is one step. `now` is the steady clock in nanoseconds.
pub mod Keys
pub mod Under
pub mod Lifetime
pub mod Order
pub mod Valid
pub mod Methods
pub mod Inserts
pub mod Reads
pub mod History
pub mod Lru
pub mod Refines
pub mod Stores
pub mod Questions
pub mod Answers
use dns_security_dataplane.Base.{
  ℕ, zero, suc, ◌+◌, ◌*◌, ltb, leb, ◌==◌, if◌then◌else◌, not, Bool, true, false, List, [], ◌∷◌,
  ◌++◌, Option, none, some, length, Result, ok, err, fault, ◌>>=◌, bytes_Eq, nat_Eq,
}
use dns_security_dataplane.Base.Map.{find, assign, erase}
use dns_security_dataplane.Text.{to_string}

pub record CacheEntry : Type 0 where
  pub response : List ℕ
  pub expires_at : ℕ
  pub policy_generation : ℕ
  pub lru_it : ℕ

pub record Cache : Type 0 where
  pub max_entries : ℕ
  pub table : List (List ℕ × CacheEntry)
  pub lru_order : List (ℕ × List ℕ)
  pub next_node : ℕ

abbrev pub new_cache : ℕ → Cache
new_cache max_entries = record {
  max_entries = max_entries;
  table = [];
  lru_order = [];
  next_node = 0;
}

unfoldable pub make_key : List ℕ → ℕ → ℕ → List ℕ
make_key qname qtype qclass = qname ++ b':' ∷ (to_string qtype ++ b':' ∷ to_string qclass)

-- `lru_order_.erase(it)`.
unfoldable pub erase_node : ℕ → List (ℕ × List ℕ) → Result (List (ℕ × List ℕ))
erase_node it order = elim (find it order) [ none ↦ fault | some key ↦ ok (erase it order) ]

-- `lru_order_.splice(lru_order_.begin(), lru_order_, it)`.
unfoldable pub splice_front : ℕ → List (ℕ × List ℕ) → Result (List (ℕ × List ℕ))
splice_front it order = elim (find it order) [
  | none ↦ fault
  | some key ↦ ok ((it, key) ∷ erase it order)
]

-- `back()` with `pop_back()`: the key, and the list without its last node.
unfoldable pub pop_back : List (ℕ × List ℕ) → Result (List ℕ × List (ℕ × List ℕ))
pop_back [] = fault
pop_back ((i, key) ∷ []) = ok (key, [])
pop_back (n ∷ m ∷ order) = do (key, rest) ← pop_back (m ∷ order); ok (key, n ∷ rest)

-- A stale entry goes from both containers.
unfoldable pub drop_entry : Cache → List ℕ → CacheEntry → Result (Cache × Option CacheEntry)
drop_entry c key e = do
  order ← erase_node e.lru_it c.lru_order
  ok (record c { table = erase key c.table; lru_order = order }, none)

unfoldable pub lookup_key : Cache → List ℕ → ℕ → ℕ → Result (Cache × Option CacheEntry)
lookup_key c key current_generation now = elim (find key c.table) [
  | none ↦ ok (c, none)
  | some e ↦
      if leb e.expires_at now
      then drop_entry c key e
      else if not (e.policy_generation == current_generation)
      then drop_entry c key e
      else do order ← splice_front e.lru_it c.lru_order; ok (record c { lru_order = order }, some e)
]

unfoldable pub lookup : Cache → List ℕ → ℕ → ℕ → ℕ → ℕ → Result (Cache × Option CacheEntry)
lookup c qname qtype qclass current_generation now =
    lookup_key c (make_key qname qtype qclass) current_generation now

-- `std::clamp(ttl_sec, 1u, 86400u)`.
unfoldable pub clamp_ttl : ℕ → ℕ
clamp_ttl ttl_sec = if ltb ttl_sec 1 then 1 else if ltb 86400 ttl_sec then 86400 else ttl_sec

-- The eviction, if the table is full.
unfoldable pub make_room : Cache → Result Cache
make_room c =
    if leb c.max_entries (length c.table)
    then (do
      (oldest_key, order) ← pop_back c.lru_order
      ok (record c { table = erase oldest_key c.table; lru_order = order }))
    else ok c

-- The new node at the front, and the entry that points to it.
unfoldable pub push_entry : Cache → List ℕ → List ℕ → ℕ → ℕ → Cache
push_entry c key response expires_at generation = record c {
  table =
      assign key
        (record {
          response = response;
          expires_at = expires_at;
          policy_generation = generation;
          lru_it = c.next_node;
        })
        c.table;
  lru_order = (c.next_node, key) ∷ c.lru_order;
  next_node = c.next_node + 1;
}

unfoldable pub insert_key : Cache → List ℕ → List ℕ → ℕ → ℕ → Result Cache
insert_key c key response expires_at generation = elim (find key c.table) [
  | some e ↦ do
    order ← splice_front e.lru_it c.lru_order
    ok (record c {
      table =
          assign key
            (record e {
              response = response;
              expires_at = expires_at;
              policy_generation = generation;
            })
            c.table;
      lru_order = order;
    })
  | none ↦ do c' ← make_room c; ok (push_entry c' key response expires_at generation)
]

unfoldable pub insert : Cache → List ℕ → ℕ → ℕ → List ℕ → ℕ → ℕ → ℕ → Result Cache
insert c qname qtype qclass response ttl_sec generation now =
    insert_key c (make_key qname qtype qclass) response (now + clamp_ttl ttl_sec * 1_000_000_000)
      generation

abbrev pub size : Cache → ℕ
size c = length c.table

abbrev pub clear : Cache → Cache
clear c = record c { table = []; lru_order = [] }
