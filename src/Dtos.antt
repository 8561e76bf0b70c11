-- ===== src/Dtos.antt =====
-- pkg/dtos: what the endpoints receive and answer.
use mx_chain_simulator_go.Common.{List, Bytes}
use mx_chain_simulator_go.Common.Int.{ℤ}

pub record ObserverInfo : Type 0 where
  pub api_port : ℤ

pub record ValidatorKeys : Type 0 where
  pub private_keys_base64 : List Bytes
