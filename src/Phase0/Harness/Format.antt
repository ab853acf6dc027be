-- ===== src/Phase0/Harness/Format.antt =====
-- A text that phase0/harness/src/bin/simulate.rs formats.
use Prim.Native.String.{◌++◌}
use soroban_ml_dsa.Prelude.{String}

unfoldable pub instance_params : String → String
instance_params key = "{\"keys\":[\"" ++ key ++ "\"]}"
