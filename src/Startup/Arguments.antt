-- ===== src/Startup/Arguments.antt =====
-- dataplane/src/main.cpp: the command line.
use dns_security_dataplane.Base.{
  ℕ, ◌+◌, ◌-◌, ◌%◌, ◌^◌, ◌==◌, leb, ltb, if◌then◌else◌, Bool, true, false, List, [], ◌∷◌, Option,
  none, some, take, drop, Result, ok, fault, ◌>>=◌, bytes_eq,
}
use dns_security_dataplane.Text.{codes}
use dns_security_dataplane.Ipc.{skip_space, digits_value, find_char}

pub record Config : Type 0 where
  pub listen_port : ℕ
  pub upstream_ip : List ℕ
  pub upstream_port : ℕ
  pub ipc_sock : List ℕ
  pub quiet : Bool

abbrev pub default_config : Config
default_config = record {
  listen_port = 1053;
  upstream_ip = codes "8.8.8.8";
  upstream_port = 53;
  ipc_sock = codes "/tmp/dns_dataplane_control.sock";
  quiet = false;
}

-- `atoi` and the cast to 16 bits; a number outside `int` is undefined, here `fault`.
abbrev pub negative_port : ℕ → Result ℕ
negative_port n = if leb n (2 ^ 31) then ok ((2 ^ 32 - n) % 2 ^ 16) else fault

abbrev pub positive_port : ℕ → Result ℕ
positive_port n = if ltb n (2 ^ 31) then ok (n % 2 ^ 16) else fault

abbrev pub signed_port : List ℕ → Result ℕ
signed_port [] = ok 0
signed_port (c ∷ cs) =
    if c == b'-'
    then negative_port (digits_value 0 cs)
    else if c == b'+'
    then positive_port (digits_value 0 cs)
    else positive_port (digits_value 0 (c ∷ cs))

unfoldable pub port_of : List ℕ → Result ℕ
port_of text = signed_port (skip_space text)

-- `--upstream`, with or without a port.
unfoldable pub set_upstream : List ℕ → Config → Result Config
set_upstream u cfg = elim (find_char b':' 0 u) [
  | none ↦ ok (record cfg { upstream_ip = u })
  | some colon ↦ port_of (drop (colon + 1) u) >>= λ port.
      ok (record cfg { upstream_ip = take colon u; upstream_port = port })
]

-- An option that takes the next argument; `none` if this is not one.
abbrev pub with_value : List ℕ → List ℕ → Config → Option (Result Config)
with_value arg value cfg =
    if bytes_eq arg (codes "--port")
    then some (port_of value >>= λ port. ok (record cfg { listen_port = port }))
    else if bytes_eq arg (codes "--upstream")
    then some (set_upstream value cfg)
    else if bytes_eq arg (codes "--ipc")
    then some (ok (record cfg { ipc_sock = value }))
    else none

abbrev pub without_value : List ℕ → Config → Config
without_value arg cfg = if bytes_eq arg (codes "--quiet") then record cfg { quiet = true } else cfg

-- The loop over `argv[1]` and on.
unfoldable pub parse_args : List (List ℕ) → Config → Result Config
parse_args [] cfg = ok cfg
parse_args (arg ∷ []) cfg = ok (without_value arg cfg)
parse_args (arg ∷ value ∷ rest) cfg = elim (with_value arg value cfg) [
  | some r ↦ r >>= λ cfg'. parse_args rest cfg'
  | none ↦ parse_args (value ∷ rest) (without_value arg cfg)
]
