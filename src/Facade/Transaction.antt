-- ===== src/Facade/Transaction.antt =====
-- `GenerateBlocksUntilTransactionIsProcessed`: how many blocks are generated, and what is answered.
use mx_chain_simulator_go.Common.{
  ℕ, zero, suc, ◌<◌, ◌≡◌, true, false, refl, arith, Bytes, bytes_eq, iterate, Bool,
}
use mx_chain_simulator_go.Common.Int.{ℤ, pos, rounds}
use mx_chain_simulator_go.Common.Outcome.{ok, err}
use mx_chain_simulator_go.Facade.Interface.{SimulatorHandler, ProxyTransactionsHandler}
use mx_chain_simulator_go.Facade.Defs.{
  until_processed, generate_blocks_until_transaction_is_processed, err_pending_transaction,
}

module _ (sim : SimulatorHandler) (proxy : ProxyTransactionsHandler sim.State) where
  open sim use {State}

  -- What is relied on: asking for a status reads it from the state and changes nothing, and the
  -- simulator generates a block when it is asked for one.
  pub record Answers (status : State → Bytes → Bytes) (block : State → State) : Type 0 where
    pub asks :
        (s : State) (tx_hash : Bytes)
        → proxy.get_processed_transaction_status tx_hash s ≡ (ok (status s tx_hash), s)
    pub generates : (s : State) → sim.generate_blocks (pos 1) s ≡ (ok tt, block s)

  module _ (status : State → Bytes → Bytes) (block : State → State) (tx_hash : Bytes) where
    abbrev pub is_pending : State → Bool
    is_pending s = bytes_eq (status s tx_hash) proxy.tx_status_pending

    -- The transaction is pending now and behind every smaller number of blocks.
    abbrev pub IsPendingFor : ℕ → State → Type 0
    IsPendingFor zero s = Unit
    IsPendingFor (suc n) s = (is_pending s ≡ true) × IsPendingFor n (block s)

    until_processed_in_time :
        Answers status block
        → (k n : ℕ) (s : State) → IsPendingFor k s
        → is_pending (iterate block k s) ≡ false
        → k < n
        → until_processed sim proxy n tx_hash s ≡ (ok tt, iterate block k s)
    unfolding until_processed
    until_processed_in_time law k zero s before done lt = elim lt [ ]
    until_processed_in_time law zero (suc n) s before done lt =
        ground (arith, law.asks s tx_hash, law.generates s)
    until_processed_in_time law (suc k) (suc n) s before done lt = ground (
      arith,
      law.asks s tx_hash,
      law.generates s,
      until_processed_in_time law k n (block s) before.1 done,
    )

    until_processed_too_late :
        Answers status block
        → (n : ℕ) (s : State) → IsPendingFor n s
        → until_processed sim proxy n tx_hash s ≡ (err err_pending_transaction, iterate block n s)
    unfolding until_processed
    until_processed_too_late law zero s before = refl
    until_processed_too_late law (suc n) s before = ground (
      arith,
      law.asks s tx_hash,
      law.generates s,
      until_processed_too_late law n (block s) before.1,
    )

    -- Where asking for a status changes nothing and every block is generated, a transaction that is
    -- first not pending behind k blocks, for a k below the bound, is answered with no error behind
    -- exactly k blocks.
    pub processed_in_time :
        Answers status block
        → (k : ℕ) (max : ℤ) (s : State) → IsPendingFor k s
        → is_pending (iterate block k s) ≡ false
        → k < rounds max
        → generate_blocks_until_transaction_is_processed sim proxy tx_hash max s
          ≡ (ok tt, iterate block k s)
    unfolding generate_blocks_until_transaction_is_processed
    processed_in_time law k max = until_processed_in_time law k (rounds max)

    -- Where asking for a status changes nothing and every block is generated, a transaction that is
    -- pending behind every number of blocks below the bound is answered by the error that it is still
    -- pending, behind as many blocks as the bound says, whatever its status is then.
    pub processed_too_late :
        Answers status block
        → (max : ℤ) (s : State) → IsPendingFor (rounds max) s
        → generate_blocks_until_transaction_is_processed sim proxy tx_hash max s
          ≡ (err err_pending_transaction, iterate block (rounds max) s)
    unfolding generate_blocks_until_transaction_is_processed
    processed_too_late law max = until_processed_too_late law (rounds max)
