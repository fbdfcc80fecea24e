-- ===== src/Arguments/Tests.antt =====
-- A list of two ports, and a command line.
use thesis_share.Base.{◌≡◌, refl, false, [], ◌∷◌, some, map, ◌++◌, arith}
use thesis_share.Base.Int.{pos}
use thesis_share.Arguments.{
  codes, as_uint, atoi, parse_array, ProgramArguments, ipv_system, set_arguments,
}
use thesis_share.Arguments.Ports.{with_commas, parse_array-pieces}
use thesis_share.Arguments.Flags.{Outcome, set_arguments-Outcome}

parse_array-pieces_example :
    parse_array (codes "8080" ++ with_commas (codes "443" ∷ []))
    ≡ some (map (λ t. as_uint (atoi t)) (codes "8080" ∷ codes "443" ∷ []))
parse_array-pieces_example =
    parse_array-pieces (codes "8080") (codes "443" ∷ [])
      (
        (refl, (refl, (refl, (refl, tt)))),
        omega arith,
        ((refl, (refl, (refl, tt))), omega arith, tt),
      )
      (omega arith)

abbrev arguments : ProgramArguments
arguments = record {
  instantaneous_output = false;
  ip_version = ipv_system;
  max_bitrate = pos 0;
  min_test_time = pos 0;
  max_test_time = pos 60;
  one_bitrate = false;
  buffer_len = pos 40;
  quic_version = [];
  port_numbers = [];
  is_connection_level_debug = false;
  one_stream_per_connection = false;
}

set_arguments-Outcome_example :
    Outcome
      (codes "--range" ∷ codes "2" ∷ codes "-6" ∷ [])
      (set_arguments (codes "--range" ∷ codes "2" ∷ codes "-6" ∷ []) [] arguments)
set_arguments-Outcome_example =
    set_arguments-Outcome (codes "--range" ∷ codes "2" ∷ codes "-6" ∷ []) [] arguments
      (omega arith, omega arith)
