-- ===== src/Tests/Chain.antt =====
-- A small chain: the laws that the theorems ask of the simulator, the proxy and gin can be met.
use mx_chain_simulator_go.Common.{
  ⊤, ℕ, suc, ◌+◌, ◌≡◌, ◌∙◌, ap, refl, true, false, Option, none, some, List, [], ◌∷◌, ◌++◌, Bytes,
  codes, bytes_eq, arith, ltb, if◌then◌else◌, Bool-cases, inl, inr,
}
use mx_chain_simulator_go.Common.Int.{rounds}
use mx_chain_simulator_go.Common.Outcome.{Error, message, Outcome, ok, err, panics, error_text}
use mx_chain_simulator_go.Facade.Interface.{SimulatorHandler, ProxyTransactionsHandler}
use mx_chain_simulator_go.Facade.Defs.{err_msg_account_not_found}
use mx_chain_simulator_go.Facade.Overwrite.{View, IsLawful, written, or_old}
use mx_chain_simulator_go.Go.Strings.{contains}
use mx_chain_simulator_go.Facade.Epoch.{IsAdvancing, IsSteady}
use mx_chain_simulator_go.Facade.Transaction.{Answers}

abbrev pub Accounts : Type 0
Accounts = Bytes → Option (Bytes → Option Bytes)

pub record Chain : Type 0 where
  pub current : ℕ
  pub blocks : ℕ
  pub keys : List Bytes
  pub accounts : Accounts

-- One key of one account.
pub record Entry : Type 0 where
  pub owner : Bytes
  pub name : Bytes
  pub content : Bytes

abbrev pub key_of : Accounts → Bytes → Bytes → Option Bytes
key_of accounts a k = elim (accounts a) [ none ↦ none | some f ↦ f k ]

abbrev pub without : Bytes → Accounts → Accounts
without a accounts b = if bytes_eq b a then none else accounts b

abbrev pub with_entry : Entry → Accounts → Accounts
with_entry e accounts b =
    if bytes_eq b e.owner
    then some (λ k. if bytes_eq k e.name then some e.content else key_of accounts b k)
    else accounts b

abbrev pub write : List (Option Entry) → Chain → Outcome ⊤ × Chain
write [] s = (ok tt, s)
write (none ∷ entries) s = (panics, s)
write (some e ∷ entries) s = write entries (record s { accounts = with_entry e s.accounts })

-- An account named `locked` cannot be removed.
abbrev pub remove : List Bytes → Chain → Outcome ⊤ × Chain
remove [] s = (ok tt, s)
remove (a ∷ _) s =
    if bytes_eq a (codes "locked")
    then (err (message (codes "account is locked")), s)
    else elim (s.accounts a) [
      | none ↦ (err (message (codes "error: account was not found")), s)
      | some _ ↦ (ok tt, record s { accounts = without a s.accounts })
    ]

abbrev pub one_more : Chain → Chain
one_more s = record s { blocks = suc s.blocks }

abbrev pub next : Chain → Chain
next s = record s { current = suc s.current; blocks = s.blocks + 2 }

abbrev pub shard0 : Bytes
shard0 = codes "localhost:8080"

abbrev pub meta : Bytes
meta = codes "localhost:9090"

-- The map is visited in one order at first, and in the other later.
abbrev pub interfaces : Chain → List (ℕ × Bytes)
interfaces s =
    if ltb s.blocks 2
    then (0, shard0) ∷ (4294967295, meta) ∷ []
    else (4294967295, meta) ∷ (0, shard0) ∷ []

abbrev pub sim : SimulatorHandler
sim = record {
  State = Chain;
  InitialWalletKeys = Bytes;
  AddressState = Entry;
  address = λ e. e.owner;
  NodeHandler = ⊤;
  metachain_shard_id = 4294967295;
  get_initial_wallet_keys = λ s. codes "wallets";
  generate_blocks = λ n s. (ok tt, record s { blocks = rounds n + s.blocks });
  set_key_value_for_address = λ a kvs s. (ok tt, s);
  set_state_multiple = write;
  remove_accounts = remove;
  add_validator_keys = λ ks s. (ok tt, record s { keys = s.keys ++ ks });
  generate_blocks_until_epoch_is_reached = λ e s. (ok tt, record s { current = rounds e });
  force_reset_validator_statistics_cache = λ s. (ok tt, s);
  get_rest_api_interfaces = interfaces;
  force_change_of_epoch = λ s. (ok tt, next s);
  get_node_handler = λ s shard. tt;
  epoch = λ s node. s.current;
}

-- A transaction is processed when three blocks are made.
abbrev pub status : Chain → Bytes → Bytes
status s tx_hash = if ltb s.blocks 3 then codes "pending" else codes "success"

abbrev pub proxy : ProxyTransactionsHandler Chain
proxy = record {
  tx_status_pending = codes "pending";
  get_processed_transaction_status = λ tx_hash s. (ok (status s tx_hash), s);
}

abbrev pub genesis : Chain
genesis = record {
  current = 4;
  blocks = 1;
  keys = [];
  accounts =
      with_entry (record { owner = codes "a"; name = codes "old"; content = codes "1" })
        (λ b. none);
}

pub sim-IsAdvancing : IsAdvancing sim
sim-IsAdvancing = record { comes_back = λ s. cc; grows = λ s h. omega arith }

pub sim-IsSteady : IsSteady sim
sim-IsSteady = record { succeeds = λ s. refl; by_one = λ s. refl }

pub sim-Answers : Answers sim proxy status one_more
sim-Answers = record { asks = λ s h. refl; generates = λ s. ground arith }

abbrev pub view : View sim
view = record {
  key = λ s. key_of s.accounts;
  sets = λ e k. if bytes_eq k e.name then some e.content else none;
}

key-remove :
    (s : Chain) (a b k : Bytes)
    → (remove (a ∷ []) s).0 ≡ ok tt
    → key_of (remove (a ∷ []) s).1.accounts b k
      ≡ (if bytes_eq b a then none else key_of s.accounts b k)
key-remove s a b k h = ground arith

remove_not_found-same :
    (s : Chain) (a : Bytes) (e : Error) → (remove (a ∷ []) s).0 ≡ err e → (remove (a ∷ []) s).1 ≡ s
remove_not_found-same s a e h = ground arith

locked_is_found :
    contains (error_text (message (codes "account is locked"))) err_msg_account_not_found ≡ false
unfolding contains
locked_is_found = refl

remove_not_found-absent :
    (s : Chain) (a : Bytes) (e : Error)
    → (remove (a ∷ []) s).0 ≡ err e
    → contains (error_text e) err_msg_account_not_found ≡ true
    → (k : Bytes) → key_of s.accounts a k ≡ none
remove_not_found-absent s a e h found k = elim (Bool-cases (bytes_eq a (codes "locked"))) [
  | inl locked ↦ absurd (locked_found e (ground (arith, locked)) found)
  | inr other ↦ ground (arith, other)
]
  where
    locked_found :
        (f : Error)
        → Path (Outcome ⊤) (err (message (codes "account is locked"))) (err f)
        → contains (error_text f) err_msg_account_not_found ≡ true
        → ⊥
    locked_found f p q = cc (p, q, locked_is_found)

key-with_entry :
    (e : Entry) (m : Accounts) (a k : Bytes)
    → key_of (with_entry e m) a k
      ≡ (if bytes_eq a e.owner then or_old sim (view.sets e k) (key_of m a k) else key_of m a k)
key-with_entry e m a k = elim (Bool-cases (bytes_eq a e.owner)) [
  | inl here ↦
      rw (here, key_of)
        (elim (Bool-cases (bytes_eq k e.name)) [ inl same ↦ rw same | inr other ↦ rw other ])
  | inr there ↦ rw (key_of, with_entry, there)
]

key-write :
    (entries : List (Option Entry)) (s : Chain) (a k : Bytes)
    → (write entries s).0 ≡ ok tt
    → key_of (write entries s).1.accounts a k ≡ written sim view entries a k (key_of s.accounts a k)
key-write [] s a k h = refl
key-write (none ∷ entries) s a k h = cc
key-write (some e ∷ entries) s a k h =
    key-write entries (record s { accounts = with_entry e s.accounts }) a k h
    ∙ ap (written sim view entries a k) (key-with_entry e s.accounts a k)

pub sim-IsLawful : IsLawful sim view
sim-IsLawful = record {
  remove_ok = key-remove;
  remove_not_found =
      λ s a e h found. (remove_not_found-same s a e h, remove_not_found-absent s a e h found);
  set_ok = λ s entries. key-write entries s;
}
