-- ===== src/Examples/Starting.antt =====
-- The start and the end of the program.
use dns_security_dataplane.Base.{◌≡◌, refl, Bool, true, false, List, [], ◌∷◌, ok, arith}
use dns_security_dataplane.Text.{codes}
use dns_security_dataplane.Startup.{
  Call, Outcomes, Exit, run_main, with_socket, with_forwarder, init_forwarder, start_server,
  stop_server,
}
use dns_security_dataplane.Startup.Closing.{Ends, run_main-Ends}
use dns_security_dataplane.Startup.Arguments.{Config, default_config, parse_args, port_of}
use dns_security_dataplane.Startup.Reading.{arguments, IsWritable, parse_args-arguments}
use dns_security_dataplane.Packets.{resolver}
use dns_security_dataplane.Examples.Runs.{rounds, feasible}

abbrev all_well : Outcomes
all_well = record {
  listen_socket = true;
  listen_bind = true;
  upstream_socket = true;
  upstream_getfl = true;
  upstream_setfl = true;
  upstream_pton = true;
  ipc_socket = true;
  ipc_bind = true;
  ipc_listen = true;
}

run_main-Ends_example : Ends rounds true (run_main resolver all_well rounds)
run_main-Ends_example =
    run_main-Ends resolver rounds ((feasible, tt), (tt, ((tt, tt), tt))) all_well

-- Whether the path of the control socket is there at the end.
abbrev path_left : Bool → List Call → Bool
path_left there [] = there
path_left there (Call.bound ∷ calls) = path_left true calls
path_left there (Call.unlinked ∷ calls) = path_left false calls
path_left there (Call.opened s ∷ calls) = path_left there calls
path_left there (Call.closed s ∷ calls) = path_left there calls

abbrev path_left_by : Exit → Bool
path_left_by (Exit.failed calls) = path_left false calls
path_left_by (Exit.finished calls served) = path_left false calls

path_removed : path_left_by (run_main resolver all_well []) ≡ false
unfolding run_main with_socket with_forwarder init_forwarder start_server stop_server
path_removed = refl

-- A `listen` that fails leaves the path.
path_kept : path_left_by (run_main resolver (record all_well { ipc_listen = false }) []) ≡ true
unfolding run_main with_socket with_forwarder init_forwarder start_server stop_server
path_kept = refl

abbrev other_config : Config
other_config = record {
  listen_port = 5353;
  upstream_ip = codes "9.9.9.9";
  upstream_port = 5300;
  ipc_sock = codes "/tmp/x";
  quiet = true;
}

other-IsWritable : IsWritable other_config
other-IsWritable = record {
  listen_port = omega arith;
  upstream_port = omega arith;
  upstream_ip = (
    omega arith,
    (omega arith, (omega arith, (omega arith, (omega arith, (omega arith, (omega arith, tt)))))),
  );
}

parse_args-arguments_example : parse_args (arguments other_config) default_config ≡ ok other_config
parse_args-arguments_example = parse_args-arguments other_config other-IsWritable

-- A port is taken modulo 65536.
port_wraps : port_of (codes "70000") ≡ ok 4464
unfolding port_of
port_wraps = refl
