-- ===== src/Testscommon/Small.antt =====
-- testscommon/gitFetcherStub.go and transactionHandlerMock.go.
use mx_chain_simulator_go.Common.{⊤, Option, none, some, Bytes}
use mx_chain_simulator_go.Common.Outcome.{Action, pure, crash, ◌>>=◌}
use mx_chain_simulator_go.Go.Os.{Node, FilePath}
use mx_chain_simulator_go.Configs.Fetcher.{GitHandler}
use mx_chain_simulator_go.Facade.Interface.{ProxyTransactionsHandler}

pub record GitFetcherStub : Type 0 where
  pub clone_called : Option (Bytes → FilePath → Action Node ⊤)
  pub checkout_called : Option (FilePath → Bytes → Action Node ⊤)

abbrev pub stub_clone : GitFetcherStub → Bytes → FilePath → Action Node ⊤
stub_clone gf repo dir = elim gf.clone_called [ none ↦ pure tt | some f ↦ f repo dir ]

abbrev pub stub_checkout : GitFetcherStub → FilePath → Bytes → Action Node ⊤
stub_checkout gf repo_dir commit = elim gf.checkout_called [
  | none ↦ pure tt
  | some f ↦ f repo_dir commit
]

unfoldable pub git_fetcher_stub : GitFetcherStub → GitHandler
git_fetcher_stub gf = record { clone = stub_clone gf; checkout = stub_checkout gf }

-- The response is a pointer of which the facade reads the status.
pub record TransactionHandlerMock (State : Type 0) : Type 0 where
  pub get_processed_transaction_status_called : Option (Bytes → Action State (Option Bytes))

-- `GetProcessedTransactionStatus`; with no function set the response is nil, with no error.
abbrev pub stub_status :
    {State : Type 0} → TransactionHandlerMock State → Bytes → Action State (Option Bytes)
stub_status th tx_hash = elim th.get_processed_transaction_status_called [
  | none ↦ pure none
  | some f ↦ f tx_hash
]

-- What the facade reads of the response; of a nil response it panics.
abbrev pub status_of : {State : Type 0} → Option Bytes → Action State Bytes
status_of none = crash
status_of (some status) = pure status

unfoldable pub transaction_handler_mock :
    {State : Type 0} → Bytes → TransactionHandlerMock State → ProxyTransactionsHandler State
transaction_handler_mock tx_status_pending th = record {
  tx_status_pending = tx_status_pending;
  get_processed_transaction_status = λ tx_hash. stub_status th tx_hash >>= status_of;
}
