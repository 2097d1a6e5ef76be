-- ===== src/Crypto.antt =====
-- What the program takes from go-ethereum's crypto package: Keccak-256, signing (ToECDSA, Sign) and
-- recovery (SigToPub, PubkeyToAddress). `none` stands for the error that the call returns.
use v2v_blockchain.Prelude.{Option}
use v2v_blockchain.Bytes.{Bytes, Hash, Address}

pub record Crypto : Type 0 where
  pub keccak256 : Bytes → Hash
  pub sign_digest : Hash → Bytes → Option Bytes
  pub recover : Hash → Bytes → Option Address
