-- ===== src/Host.antt =====
-- rust/src/host_functions.rs: the trait through which the hash functions are called. An
-- implementation is any record of this type: the arrays that the trait returns are byte strings of any
-- length here.
pub mod Manager
use ics.Prelude.Bytes.{Bytes}

pub record HostFunctionsProvider : Type 0 where
  pub sha2_256 : Bytes → Bytes
  pub sha2_512 : Bytes → Bytes
  pub sha2_512_truncated : Bytes → Bytes
  pub keccak_256 : Bytes → Bytes
  pub ripemd160 : Bytes → Bytes
  pub blake2b_512 : Bytes → Bytes
  pub blake2s_256 : Bytes → Bytes
  pub blake3 : Bytes → Bytes
