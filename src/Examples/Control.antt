-- ===== src/Examples/Control.antt =====
-- The control socket.
use dns_security_dataplane.Base.{ℕ, ◌≡◌, refl, List, [], ◌∷◌, bytes_Eq}
use dns_security_dataplane.Text.{codes}
use dns_security_dataplane.Snapshot.{new_manager}
use dns_security_dataplane.Ipc.{
  handle_command, extract_json_strings, extract_json_string, extract_json_uint64, strings_from,
  find_text, strtoull,
}
use dns_security_dataplane.Ipc.Apply.{Served, handle_command-Served}

abbrev request : List ℕ
request =
    codes
      "{\"command\":\"APPLY_POLICY\",\"generation\": 7,\"version_hash\":\"v7\",\"suffix_blocks\":[\"b\",\"x.c\"]}"

request_command : extract_json_string request (codes "command") ≡ codes "APPLY_POLICY"
unfolding extract_json_string find_text
request_command = refl

request_generation : extract_json_uint64 request (codes "generation") ≡ 7
unfolding extract_json_uint64 find_text strtoull
request_generation = refl

request_suffixes :
    extract_json_strings request (codes "suffix_blocks") ≡ codes "b" ∷ codes "x.c" ∷ []
unfolding extract_json_strings find_text strings_from
request_suffixes = refl

handle_command-Served_example : Served request new_manager (handle_command request new_manager).0
handle_command-Served_example = handle_command-Served request new_manager
