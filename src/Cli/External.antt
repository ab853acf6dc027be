-- ===== src/Cli/External.antt =====
-- What crates/pq-cli/src/lib.rs uses of serde_json, stellar-strkey, stellar-xdr, ed25519-dalek,
-- sha2 and of the processes it starts, none of which is in the repository. The records below have
-- the fields that the source fills in, the data types the variants that it builds or matches.
use soroban_ml_dsa.Prelude.{ℕ, ◌≡◌, Bool, true, Option, some, Bytes, List, String, Run}
use soroban_ml_dsa.Prelude.Int.{ℤ}
use soroban_ml_dsa.Stellar.External.{Xdr}
use soroban_ml_dsa.Stellar.Auth.{Entry}

pub record Json : Type 1 where
  pub Value : Type 0
  -- `value[key]` and `value[position]`, `null` where there is none, and `value.get(key)`
  pub field : Value → String → Value
  pub item : Value → ℕ → Value
  pub get : Value → String → Option Value
  pub as_str : Value → Option String
  pub as_i64 : Value → Option ℤ
  pub as_u64 : Value → Option ℕ
  pub string : String → Value
  -- `value[key] = field`; `none` is a panic, where the value has no fields.
  pub set_field : Value → String → Value → Option Value
  pub from_slice : Bytes → Option Value

-- The outside world. `curl` posts a body and gives the output of the process, or `none` where it
-- did not start; `sleep` waits for some seconds.
pub record System : Type 1 where
  pub World : Type 0
  pub curl : String → World → Option Bytes × World
  pub sleep : ℕ → World → World

pub data Strkey : Type 0 where
  public_key_ed25519 contract private_key_ed25519 other : Bytes → Strkey

pub record InvokeContractArgs (ScAddress ScSymbol Args : Type 0) : Type 0 where
  pub contract_address : ScAddress
  pub function_name : ScSymbol
  pub args : Args

pub data HostFunction (ScAddress ScSymbol Args : Type 0) : Type 0 where
  invoke_contract :
      InvokeContractArgs ScAddress ScSymbol Args → HostFunction ScAddress ScSymbol Args

pub record InvokeHostFunctionOp (ScAddress ScSymbol Args Auth : Type 0) : Type 0 where
  pub host_function : HostFunction ScAddress ScSymbol Args
  pub auth : Auth

pub data OperationBody (ScAddress ScSymbol Args Auth : Type 0) : Type 0 where
  invoke_host_function :
      InvokeHostFunctionOp ScAddress ScSymbol Args Auth → OperationBody ScAddress ScSymbol Args Auth

pub record Operation (ScAddress ScSymbol Args Auth : Type 0) : Type 0 where
  pub source_account : Option Bytes
  pub body : OperationBody ScAddress ScSymbol Args Auth

pub data Preconditions : Type 0 where
  no_preconditions : Preconditions

pub data Memo : Type 0 where
  no_memo : Memo

pub data TransactionExt (Resources : Type 0) : Type 0 where
  v0 : TransactionExt Resources
  v1 : Resources → TransactionExt Resources

pub record Transaction (Operations Resources : Type 0) : Type 0 where
  pub source_account : Bytes
  pub fee : ℕ
  pub seq_num : ℤ
  pub cond : Preconditions
  pub memo : Memo
  pub operations : Operations
  pub ext : TransactionExt Resources

pub record TransactionSignaturePayload (Tx : Type 0) : Type 0 where
  pub network_id : Bytes
  pub tagged_transaction : Tx

pub record DecoratedSignature : Type 0 where
  pub hint : Bytes
  pub signature : Bytes

pub record TransactionEnvelope (Tx : Type 0) : Type 0 where
  pub tx : Tx
  pub signatures : List DecoratedSignature

-- `none` is a failed conversion or encoding.
pub record Crates (Y : Xdr) : Type 1 where
  pub strkey : String → Option Strkey
  pub ScSymbol : Type 0
  pub Args : Type 0
  -- `VecM::default()`
  pub no_args : Args
  pub Auth : Type 0
  pub Operations : Type 0
  -- `SorobanTransactionData`
  pub Resources : Type 0
  pub contract_address : Bytes → Y.ScAddress
  -- An invocation of a contract function, with no invocations below it.
  pub contract_fn : InvokeContractArgs Y.ScAddress ScSymbol Args → Y.SorobanAuthorizedInvocation
  pub symbol : String → Option ScSymbol
  pub args : List Y.ScVal → Option Args
  pub auth : List (Entry Y) → Option Auth
  pub operations : List (Operation Y.ScAddress ScSymbol Args Auth) → Option Operations
  -- `signature.to_bytes().to_vec().try_into()`, and a vector of signatures as a `VecM`
  pub signature_bytes : Bytes → Option Bytes
  pub signature_list : List DecoratedSignature → Option (List DecoratedSignature)
  pub account_key_base64 : Bytes → Option String
  pub envelope_base64 : TransactionEnvelope (Transaction Operations Resources) → Option String
  pub payload_xdr : TransactionSignaturePayload (Transaction Operations Resources) → Option Bytes
  -- An error comes with its text.
  pub resources_from_base64 : String → Run String Resources
  pub instructions : Resources → ℕ
  pub disk_read_bytes : Resources → ℕ
  pub write_bytes : Resources → ℕ
  -- `str::parse` to an `i64`
  pub parse_i64 : String → Option ℤ
  pub sha256 : Bytes → Bytes
  -- ed25519: the public key of a seed, and a signature of a message under a seed.
  pub verifying_key : Bytes → Bytes
  pub sign : Bytes → Bytes → Bytes

pub record IsLawful {Y : Xdr} (X : Crates Y) (verify : Bytes → Bytes → Bytes → Bool) : Type 0 where
  -- The conversions keep what they convert.
  pub signature_bytes_lem : (b : Bytes) {s : Bytes} → X.signature_bytes b ≡ some s → s ≡ b
  pub signature_list_lem :
      (l : List DecoratedSignature) {l' : List DecoratedSignature}
      → X.signature_list l ≡ some l'
      → l' ≡ l
  -- A signature under a seed verifies under the public key of the seed.
  pub verify-sign :
      (seed message : Bytes) → verify (X.verifying_key seed) message (X.sign seed message) ≡ true
