-- ===== src/Packets.antt =====
-- Packets, policies and states for the examples.
use dns_security_dataplane.Base.{
  ℕ, zero, suc, ◌+◌, ◌*◌, ◌≤◌, ◌<◌, ◌≢◌, refl, true, List, [], ◌∷◌, All, length, arith,
}
use dns_security_dataplane.Base.Map.{find}
use dns_security_dataplane.Text.{codes}
use dns_security_dataplane.Parser.{ParsedPacket}
use dns_security_dataplane.Trie.{empty_trie}
use dns_security_dataplane.Trie.Matches.{insert_all}
use dns_security_dataplane.Policy.{PolicySnapshot}
use dns_security_dataplane.Cache.{Cache, new_cache}
use dns_security_dataplane.Cache.Valid.{IsValid}
use dns_security_dataplane.Cache.Reads.{new_cache-IsValid}
use dns_security_dataplane.Forwarder.{Address, Forwarder, PendingTransaction, max_pending}
use dns_security_dataplane.Forwarder.Txid.{AllFresh}
use dns_security_dataplane.Forwarder.Pending.{IsBounded}
use dns_security_dataplane.Dataplane.{Dataplane, Outside}
use dns_security_dataplane.Dataplane.Queries.{IsSound, IsAmple}

-- The question A `wW.b`, in class IN, behind a header with this ID and these high flags.
abbrev pub packet_bytes : ℕ → ℕ → List ℕ
packet_bytes id flags =
    0x12 ∷ id ∷ flags ∷ 0x00 ∷ 0 ∷ 1 ∷ 0 ∷ 0 ∷ 0 ∷ 0 ∷ 0 ∷ 0 ∷ 2 ∷ 119 ∷ 87 ∷ 1 ∷ 98 ∷ 0 ∷ 0 ∷ 1 ∷ 0
    ∷ 1 ∷ []

abbrev pub packet : ℕ → ℕ → ParsedPacket
packet id flags = record {
  header = record {
    id = 0x1200 + id;
    flags = flags * 256;
    qdcount = 1;
    ancount = 0;
    nscount = 0;
    arcount = 0;
  };
  question = record { qname = codes "ww.b"; qtype = 1; qclass = 1; wire_bytes_consumed = 10 };
  raw_packet = packet_bytes id flags;
}

abbrev pub query_bytes : List ℕ
query_bytes = packet_bytes 0x34 0x01

abbrev pub query : ParsedPacket
query = packet 0x34 0x01

-- A response under the number that the forwarder drew, 0x1207.
abbrev pub response_bytes : List ℕ
response_bytes = packet_bytes 0x07 0x81

abbrev pub response : ParsedPacket
response = packet 0x07 0x81

abbrev pub client : Address
client = record { sin_addr = 16777343; sin_port = 5353 }

abbrev pub resolver : Address
resolver = record { sin_addr = 134744072; sin_port = 13568 }

abbrev pub rules : List (List ℕ × ℕ)
rules = (codes "x.B", 7) ∷ (codes "b", 9) ∷ []

abbrev pub blocking : PolicySnapshot
blocking = record {
  generation = 2;
  version_hash = codes "v2";
  suffix_trie = insert_all rules empty_trie;
  exact_blocks = [];
  allowlist = [];
}

abbrev pub permissive : PolicySnapshot
permissive = record {
  generation = 3;
  version_hash = codes "v3";
  suffix_trie = empty_trie;
  exact_blocks = [];
  allowlist = codes "ww.b" ∷ [];
}

abbrev pub idle_forwarder : Forwarder
idle_forwarder = record { is_open = true; upstream_addr = resolver; pending_tx = [] }

abbrev pub asked : PendingTransaction
asked = record {
  client_txid = 0x1234;
  client_addr = client;
  expected_qname = codes "ww.b";
  expected_qtype = 1;
  timestamp = 5;
}

abbrev pub busy_forwarder : Forwarder
busy_forwarder = record idle_forwarder { pending_tx = (0x1207, asked) ∷ [] }

pub idle-IsBounded : IsBounded idle_forwarder
idle-IsBounded = record { once = tt; bounded = omega arith }

pub busy-IsBounded : IsBounded busy_forwarder
unfolding find
busy-IsBounded = record { once = (refl, tt); bounded = omega arith }

-- n, n - 1, ..., 1.
unfoldable pub counted : ℕ → List ℕ
counted zero = []
counted (suc n) = suc n ∷ counted n

counted-lt : (n m : ℕ) → n < m → All (λ e. e ≢ m) (counted n)
unfolding counted
counted-lt zero m h = tt
counted-lt (suc n) m h = (omega arith, counted-lt n m (omega arith))

pub counted-AllFresh : (n : ℕ) → AllFresh (counted n)
unfolding counted
counted-AllFresh zero = tt
counted-AllFresh (suc n) = (omega arith, counted-lt n (suc n) (omega arith), counted-AllFresh n)

pub length-counted : (n : ℕ) → n ≤ length (counted n)
unfolding counted
length-counted zero = omega arith
length-counted (suc n) = omega (arith, length-counted n)

abbrev pub outside : Outside
outside = record { lookup_now = 9; forward_now = 10; draws = counted max_pending; send_ok = true }

pub outside-IsAmple : IsAmple outside
outside-IsAmple = record { fresh = counted-AllFresh 2048; enough = length-counted 2048 }

abbrev pub empty_cache : Cache
empty_cache = new_cache 2

pub empty-IsValid : IsValid empty_cache
empty-IsValid = new_cache-IsValid 2 (omega arith)

abbrev pub idle_dataplane : Dataplane
idle_dataplane = record { cache = empty_cache; forwarder = idle_forwarder }

abbrev pub busy_dataplane : Dataplane
busy_dataplane = record { cache = empty_cache; forwarder = busy_forwarder }

pub idle-IsSound : IsSound idle_dataplane
idle-IsSound = record { cache = empty-IsValid; table = idle-IsBounded; opened = refl }

pub busy-IsSound : IsSound busy_dataplane
busy-IsSound = record { cache = empty-IsValid; table = busy-IsBounded; opened = refl }
