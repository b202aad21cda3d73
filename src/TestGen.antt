-- ===== src/TestGen.antt =====
-- src/sockets/testgen.rs: the configuration and the private state of the traffic generator.
pub mod Strategy
pub mod Gen
pub mod Pattern
pub mod Valid
pub mod Read
pub mod Limit
pub mod Delivery
pub mod Factory
pub mod Created
pub mod EmptyBlocks
pub mod Pump
pub mod Bounds
use polysock.Base.{ℕ, ◌+◌, ◌-◌, String, Option, List, ltb, if◌then◌else◌}

-- Texts are their bytes in UTF-8, and a `PathBuf` is its text.
pub data TestGenTypes : Type 0 where
  static : ℕ → ℕ → TestGenTypes  -- data, size
  sequence : ℕ → TestGenTypes  -- size
  increment : ℕ → ℕ → TestGenTypes  -- data, size
  blocks : List ℕ → ℕ → TestGenTypes  -- blocks, block_size
  text_string : List ℕ → TestGenTypes
  hex_string : List ℕ → TestGenTypes
  file : String → TestGenTypes

pub record TestGenConfig : Type 0 where
  pub pat : TestGenTypes
  pub cycle : ℕ
  pub iter_num : Option ℕ

-- The values that the program puts in a `Box<dyn Any + Send>` for a strategy.
pub data Private : Type 0 where
  byte : ℕ → Private
  text : List ℕ → Private

pub record TestGenPrivate : Type 0 where
  pub pos : ℕ
  pub pattern_size : ℕ
  pub max_iter : Option ℕ
  pub curr_iter : ℕ
  pub pattern_priv : Option Private

unfoldable pub get_curr_size : ℕ → ℕ → ℕ → ℕ
get_curr_size pattern_size req_size pos =
    if ltb (pattern_size - pos) req_size then pattern_size - pos else req_size

unfoldable pub update_pos : TestGenPrivate → ℕ → ℕ → TestGenPrivate
update_pos p req ret = record p { pos = if ltb ret req then 0 else p.pos + req }
