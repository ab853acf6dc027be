-- ===== src/Phase0/Harness/Envelope.antt =====
-- phase0/harness/src/bin/simulate.rs: the envelope whose length stands for what will be sent.
use soroban_ml_dsa.Prelude.{replicate, [], ◌∷◌, Run, Never, ok, ◌>>=◌, or_panic}
use soroban_ml_dsa.Stellar.External.{Xdr}
use soroban_ml_dsa.Cli.External.{Crates, TransactionEnvelope, v1}
use soroban_ml_dsa.Cli.Transactions.{Tx}

-- With resources, and one signature of 64 bytes.
unfoldable pub sized :
    {Y : Xdr} (X : Crates Y) → Tx X → X.Resources → Run Never (TransactionEnvelope (Tx X))
sized X tx td = do
  sig ← or_panic (X.signature_bytes (replicate 64 0))
  sigs ← or_panic (X.signature_list (record { hint = replicate 4 0; signature = sig } ∷ []))
  ok (record { tx = record tx { ext = v1 td; fee = 1_000_000 }; signatures = sigs })
