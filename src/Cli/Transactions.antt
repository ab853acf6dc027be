-- ===== src/Cli/Transactions.antt =====
-- crates/pq-cli/src/lib.rs: addresses, and how transactions are built and signed.
use soroban_ml_dsa.Prelude.{
  ℕ, ◌+◌, ◌-◌, ◌%◌, ◌^◌, String, ltb, if◌then◌else◌, Bytes, List, [], ◌∷◌, some, none, take, drop,
  Run, Never, ok, panic, ◌>>=◌, or_panic,
}
use soroban_ml_dsa.Prelude.Int.{ℤ, pos, negsuc}
use soroban_ml_dsa.Stellar.External.{Xdr}
use soroban_ml_dsa.Stellar.Auth.{Entry}
use soroban_ml_dsa.Cli.External.{
  Crates, public_key_ed25519, contract, private_key_ed25519, invoke_contract, invoke_host_function,
  Operation, Transaction, TransactionEnvelope, no_preconditions, no_memo, v0, v1,
}

-- `i64 + 1000`, and `as u32`, which keeps the low 32 bits.
abbrev pub plus_1000 : ℤ → ℤ
plus_1000 (pos n) = pos (n + 1000)
plus_1000 (negsuc n) = if ltb n 1000 then pos (999 - n) else negsuc (n - 1000)

abbrev pub as_u32 : ℤ → ℕ
as_u32 (pos n) = n % 2 ^ 32
as_u32 (negsuc n) = 2 ^ 32 - 1 - n % 2 ^ 32

module _ {Y : Xdr} (X : Crates Y) where
  abbrev pub Op : Type 0
  Op = Operation Y.ScAddress X.ScSymbol X.Args X.Auth

  abbrev pub Tx : Type 0
  Tx = Transaction X.Operations X.Resources

  unfoldable pub account_pk : String → Run Never Bytes
  account_pk text = elim (X.strkey text) [ some (public_key_ed25519 k) ↦ ok k | _ ↦ panic ]

  unfoldable pub contract_addr : String → Run Never Y.ScAddress
  contract_addr text = elim (X.strkey text) [
    | some (contract c) ↦ ok (X.contract_address c)
    | _ ↦ panic
  ]

  unfoldable pub secret_seed : String → Run Never Bytes
  secret_seed text = elim (X.strkey text) [ some (private_key_ed25519 k) ↦ ok k | _ ↦ panic ]

  unfoldable pub invoke_op : String → String → List Y.ScVal → List (Entry Y) → Run Never Op
  invoke_op account function args auth = do
    address ← contract_addr account
    name ← or_panic (X.symbol function)
    arguments ← or_panic (X.args args)
    entries ← or_panic (X.auth auth)
    ok (record {
      source_account = none;
      body = invoke_host_function (record {
        host_function =
            invoke_contract
              (record { contract_address = address; function_name = name; args = arguments });
        auth = entries;
      });
    })

  unfoldable pub build_tx : Bytes → ℤ → Op → Run Never Tx
  build_tx source seq op = do
    operations ← or_panic (X.operations (op ∷ []))
    ok (record {
      source_account = source;
      fee = 1000000;
      seq_num = seq;
      cond = no_preconditions;
      memo = no_memo;
      operations = operations;
      ext = v0;
    })

  pub record SimResult : Type 0 where
    pub instructions : ℕ
    pub disk_read_bytes : ℕ
    pub write_bytes : ℕ
    pub min_fee : ℤ
    pub resources : X.Resources

  -- The first part of `submit`: attach the resources and the fee, and sign. The envelope comes with
  -- the hash that was signed.
  unfoldable pub sign_envelope :
      Tx → SimResult → Bytes → Bytes → Run Never (TransactionEnvelope Tx × Bytes)
  sign_envelope tx sim seed network_id = do
    let ready = record tx { ext = v1 sim.resources; fee = as_u32 (plus_1000 sim.min_fee) }
    payload ←
        or_panic (X.payload_xdr (record { network_id = network_id; tagged_transaction = ready }))
    let hash = X.sha256 payload
    let pk = X.verifying_key seed
    sig ← or_panic (X.signature_bytes (X.sign seed hash))
    sigs ← or_panic (X.signature_list (record { hint = take 4 (drop 28 pk); signature = sig } ∷ []))
    ok (record { tx = ready; signatures = sigs }, hash)
