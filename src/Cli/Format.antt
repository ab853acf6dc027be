-- ===== src/Cli/Format.antt =====
-- The texts that crates/pq-cli/src/lib.rs formats: request bodies, their parameters, a hash in hex.
pub mod Hex
use Prim.Native.String.{◌++◌, char_at}
use soroban_ml_dsa.Prelude.{ℕ, ◌/◌, ◌%◌, String, Option, some, none, Bytes, [], ◌∷◌}

unfoldable pub request : String → String → String
request method params =
    "{\"jsonrpc\":\"2.0\",\"id\":1,\"method\":\"" ++ method ++ "\",\"params\":" ++ params ++ "}"

unfoldable pub keys_params : String → String
keys_params key = "{\"keys\":[\"" ++ key ++ "\"],\"xdrFormat\":\"json\"}"

unfoldable pub transaction_params : String → String
transaction_params b64 = "{\"transaction\":\"" ++ b64 ++ "\"}"

unfoldable pub simulation_params : String → Option String → String
simulation_params b64 (some mode) =
    "{\"transaction\":\"" ++ b64 ++ "\",\"authMode\":\"" ++ mode ++ "\"}"
simulation_params b64 none = transaction_params b64

unfoldable pub hash_params : String → String
hash_params hex = "{\"hash\":\"" ++ hex ++ "\"}"

-- A hexadecimal digit, in lower case.
abbrev digit : ℕ → String
digit d = String.◌∷◌ (char_at "0123456789abcdef" d) String.[]

-- `{b:02x}` of each byte.
unfoldable pub hex : Bytes → String
hex [] = ""
hex (b ∷ bs) = digit (b / 16) ++ digit (b % 16) ++ hex bs
