-- ===== src/Startup/Reading.antt =====
-- A command line that is written for a configuration, and read again.
use dns_security_dataplane.Base.{
  ℕ, suc, ◌+◌, ◌%◌, ◌^◌, ◌<◌, ◌≤◌, ◌≡◌, ◌≢◌, refl, sym, ap, ◌∙◌, ==_iff, ltb, Bool, true, false,
  List, [], ◌∷◌, ◌++◌, some, length, drop, ok, ◌>>=◌, bytes_eq, arith, All,
}
use dns_security_dataplane.Text.{codes, to_string}
use dns_security_dataplane.Ipc.Find.{find_text-append, take-append}
use dns_security_dataplane.Ipc.Digits.{digits_value-onto, starts_with_digit}
use dns_security_dataplane.Ipc.{digits_value, find_char}
use dns_security_dataplane.Startup.Arguments.{
  Config, default_config, positive_port, port_of, set_upstream, with_value, parse_args,
}

port_of-digit :
    (c : ℕ) (cs : List ℕ) → 48 ≤ c → port_of (c ∷ cs) ≡ positive_port (digits_value 0 (c ∷ cs))
unfolding port_of
port_of-digit c cs h = ground (arith, ==_iff c 32, ==_iff c b'-', ==_iff c b'+')

port_of-to_string : (n : ℕ) → n < 2 ^ 16 → port_of (to_string n) ≡ ok n
unfolding to_string
port_of-to_string n h =
    let (c, cs, e, d) = starts_with_digit (suc n) n [] (omega arith) in
    ap port_of e
    ∙ (port_of-digit c cs d
        ∙ (ap (λ t. positive_port (digits_value 0 t)) (sym e)
            ∙ (ap positive_port (digits_value-onto (suc n) n [] (omega arith)) ∙ in_range)))
  where
    in_range : positive_port n ≡ ok n
    in_range =
        let small : ltb n (2 ^ 31) ≡ true = ground arith in
        let same : n % 2 ^ 16 ≡ n = omega arith in rw (small, same) refl

drop-append : (ip rest : List ℕ) (c : ℕ) → drop (length ip + 1) (ip ++ c ∷ rest) ≡ rest
drop-append [] rest c = refl
drop-append (b ∷ ip) rest c =
    let count : length (b ∷ ip) + 1 ≡ suc (length ip + 1) = omega arith in
    rw count (drop-append ip rest c)

set_upstream_pair :
    (ip : List ℕ) (port : ℕ) (cfg : Config)
    → All (λ c. c ≢ b':') ip
    → port < 2 ^ 16
    → set_upstream (ip ++ b':' ∷ to_string port) cfg
      ≡ ok (record cfg { upstream_ip = ip; upstream_port = port })
unfolding set_upstream
set_upstream_pair ip port cfg a h =
    let colon : find_char b':' 0 (ip ++ b':' ∷ to_string port) ≡ some (length ip) =
      find_text-append b':' ip (to_string port) 0 a ∙ ap some (omega arith) in
    rw
      (
        colon,
        set_upstream,
        drop-append ip (to_string port) b':',
        take-append ip (b':' ∷ to_string port),
        port_of-to_string port h,
      )
      refl

-- A command line with every option.
abbrev pub quiet_argument : Bool → List (List ℕ)
quiet_argument true = codes "--quiet" ∷ []
quiet_argument false = []

abbrev pub arguments : Config → List (List ℕ)
arguments cfg =
    codes "--port"
    ∷ to_string cfg.listen_port
    ∷ codes "--upstream"
    ∷ (cfg.upstream_ip ++ b':' ∷ to_string cfg.upstream_port)
    ∷ codes "--ipc"
    ∷ cfg.ipc_sock
    ∷ quiet_argument cfg.quiet

pub record IsWritable (cfg : Config) : Type 0 where
  pub listen_port : cfg.listen_port < 2 ^ 16
  pub upstream_port : cfg.upstream_port < 2 ^ 16
  pub upstream_ip : All (λ c. c ≢ b':') cfg.upstream_ip

one_option :
    (arg value : List ℕ) (rest : List (List ℕ)) (cfg : Config) {cfg' : Config}
    → with_value arg value cfg ≡ some (ok cfg')
    → parse_args (arg ∷ value ∷ rest) cfg ≡ parse_args rest cfg'
unfolding parse_args
one_option arg value rest cfg h = rw (h, parse_args) refl

port_option :
    (port : ℕ) (rest : List (List ℕ)) (cfg : Config)
    → port < 2 ^ 16
    → parse_args (codes "--port" ∷ to_string port ∷ rest) cfg
      ≡ parse_args rest (record cfg { listen_port = port })
unfolding bytes_eq
port_option port rest cfg h =
    one_option (codes "--port") (to_string port) rest cfg
      (ap (λ r. some (r >>= λ p. ok (record cfg { listen_port = p }))) (port_of-to_string port h))

upstream_option :
    (ip : List ℕ) (port : ℕ) (rest : List (List ℕ)) (cfg : Config)
    → All (λ c. c ≢ b':') ip
    → port < 2 ^ 16
    → parse_args (codes "--upstream" ∷ (ip ++ b':' ∷ to_string port) ∷ rest) cfg
      ≡ parse_args rest (record cfg { upstream_ip = ip; upstream_port = port })
unfolding bytes_eq
upstream_option ip port rest cfg a h =
    one_option (codes "--upstream") (ip ++ b':' ∷ to_string port) rest cfg
      (ap some (set_upstream_pair ip port cfg a h))

ipc_option :
    (path : List ℕ) (rest : List (List ℕ)) (cfg : Config)
    → parse_args (codes "--ipc" ∷ path ∷ rest) cfg
      ≡ parse_args rest (record cfg { ipc_sock = path })
unfolding bytes_eq
ipc_option path rest cfg = one_option (codes "--ipc") path rest cfg refl

quiet_option :
    (quiet : Bool) (cfg : Config)
    → parse_args (quiet_argument quiet) (record cfg { quiet = false })
      ≡ ok (record cfg { quiet = quiet })
unfolding parse_args bytes_eq
quiet_option true cfg = refl
quiet_option false cfg = refl

-- The command line that is written for a configuration is read back as that configuration. Its
-- ports are below 65536, and its address has no colon.
pub parse_args-arguments :
    (cfg : Config) → IsWritable cfg → parse_args (arguments cfg) default_config ≡ ok cfg
parse_args-arguments cfg w =
    port_option cfg.listen_port _ default_config w.listen_port
    ∙ (upstream_option cfg.upstream_ip cfg.upstream_port _ _ w.upstream_ip w.upstream_port
        ∙ (ipc_option cfg.ipc_sock (quiet_argument cfg.quiet) _ ∙ quiet_option cfg.quiet cfg))
