-- ===== src/Examples/Server.antt =====
-- A stand-in server that answers by a fixed list, and stand-ins for the crates of the clients.
use text.Mathlib.Text.{◌==◌}
use soroban_ml_dsa.Prelude.{
  ℕ, refl, arith, String, Bool, true, false, some, none, Option, List, [], ◌∷◌, ◌++◌, Bytes,
  Bytes-discrete, ok, err, if◌then◌else◌,
}
use soroban_ml_dsa.Prelude.Int.{pos}
use soroban_ml_dsa.Stellar.Auth.{Entry}
use soroban_ml_dsa.Examples.World.{wire, digest}
use soroban_ml_dsa.Cli.External
use soroban_ml_dsa.Cli.Live.{Converts}
use soroban_ml_dsa.Cli.External.{
  Json, System, Crates, Operation, Transaction, TransactionEnvelope, public_key_ed25519, contract,
  private_key_ed25519, no_preconditions, no_memo, v0,
}

pub data Doc : Type 0 where
  null : Doc
  words : String → Doc
  -- A key, its value, and the other fields.
  entry : String → Doc → Doc → Doc

unfoldable pub get : Doc → String → Option Doc
get (entry k v rest) key = let others = get rest key in if k == key then some v else others
get _ key = none

unfoldable pub as_str : Doc → Option String
as_str (words s) = some s
as_str _ = none

unfoldable pub field : Doc → String → Doc
unfolding get
field v key = elim (get v key) [ some x ↦ x | none ↦ null ]

abbrev pub answer : String → Doc
answer status =
    entry "result"
      (entry "status" (words status)
        (entry "transactionData" (words "data") (entry "minResourceFee" (words "500") null)))
      null

-- The world counts the requests, and the answer depends on the count.
abbrev pub json : Json
json = record {
  Value = Doc;
  field = field;
  item = λ v n. null;
  get = get;
  as_str = as_str;
  as_i64 = λ v. some (pos 7);
  as_u64 = λ v. some 100;
  string = words;
  set_field = λ v key x. some (entry key x v);
  from_slice = λ b. elim b [
    | [] ↦ some (answer "PENDING")
    | _ ∷ [] ↦ some (answer "NOT_FOUND")
    | _ ↦ some (answer "SUCCESS")
  ];
}

abbrev pub world : System
world = record { World = Bytes; curl = λ body w. (some w, 1 ∷ w); sleep = λ seconds w. w }

abbrev pub Op : Type 0
Op = Operation ℕ String (List Bytes) (List (Entry wire))

abbrev pub crates : Crates wire
crates = record {
  strkey = λ s.
      if s == "G"
      then some (public_key_ed25519 [])
      else if s == "C"
      then some (contract [])
      else some (private_key_ed25519 (4 ∷ []));
  ScSymbol = String;
  Args = List Bytes;
  no_args = [];
  Auth = List (Entry wire);
  Operations = List Op;
  Resources = ℕ;
  contract_address = λ b. 0;
  contract_fn = λ a. 5;
  symbol = λ s. some s;
  args = λ l. some l;
  auth = λ l. some l;
  operations = λ l. some l;
  signature_bytes = λ b. some b;
  signature_list = λ l. some l;
  account_key_base64 = λ b. some "key";
  envelope_base64 = λ e. some "envelope";
  payload_xdr = λ p. some p.network_id;
  resources_from_base64 = λ s. if s == "" then err "no data" else ok 700000;
  instructions = λ r. r;
  disk_read_bytes = λ r. r;
  write_bytes = λ r. r;
  parse_i64 = λ s. some (pos 500);
  sha256 = digest;
  verifying_key = λ seed. seed;
  sign = λ seed message. seed ++ message;
}

abbrev pub verify : Bytes → Bytes → Bytes → Bool
verify key message sig = elim (Bytes-discrete sig (key ++ message)) [ yes e ↦ true | no e ↦ false ]

pub crates-IsLawful : External.IsLawful crates verify
crates-IsLawful = record {
  signature_bytes_lem = λ b h. ground arith;
  signature_list_lem = λ l h. ground arith;
  verify-sign = λ seed message. ground arith;
}

pub crates-Converts : Converts crates
crates-Converts = record {
  to_xdr = λ h. (_, refl);
  init = ("init", refl);
  protected = ("protected", refl);
  args = λ l short. (l, refl);
  auth = λ l short. (l, refl);
  operations = λ op. (op ∷ [], refl);
  payload_xdr = λ p. (p.network_id, refl);
  signature_bytes = λ seed message. (seed ++ message, refl);
  signature_list = λ d. (d ∷ [], refl);
  envelope_base64 = λ e. ("envelope", refl);
}
