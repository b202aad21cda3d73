-- ===== src/TestGen/Pattern.antt =====
-- What the generator of src/sockets/testgen.rs promises: the bytes of each iteration, written
-- without positions, chunks or private states.
pub mod Fill
pub mod Blocks
use polysock.Base.{ℕ, zero, suc, ◌+◌, ◌-◌, ◌*◌, ◌%◌, ◌≤◌, ◌<◌, ◌≡◌, refl, ap, ◌∙◌}
use polysock.Base.{String, Option, some, List, [], ◌∷◌, ◌++◌, length, take, drop, replicate, arith}
use polysock.Base.{length-append, length-replicate}
use polysock.TestGen.{
  TestGenTypes, static, sequence, increment, blocks, text_string, hex_string, file, Private, byte,
  text,
}
use polysock.TestGen.Strategy.{
  Strategy, static_strategy, sequence_strategy, increment_strategy, block_strategy,
  text_string_strategy, hex_string_strategy, file_strategy,
}

-- The `n` bytes that count up from `start`, modulo 256.
abbrev pub count_up : ℕ → ℕ → List ℕ
count_up start zero = []
count_up start (suc n) = start % 256 ∷ count_up (start + 1) n

-- Each block `bs` times.
abbrev pub expand : ℕ → List ℕ → List ℕ
expand bs [] = []
expand bs (b ∷ bl) = replicate bs b ++ expand bs bl

-- The bytes of iteration `k`, where `content` is the text of the configured file, if there is one.
abbrev pub iteration : TestGenTypes → List ℕ → ℕ → List ℕ
iteration (static value size) content k = replicate size value
iteration (sequence size) content k = count_up 0 size
iteration (increment value size) content k = replicate size ((value + k) % 256)
iteration (blocks bl bs) content k = expand bs bl
iteration (text_string t) content k = t
iteration (hex_string t) content k = t
iteration (file path) content k = content

-- The strategy and its private state are those of the configuration, at position `pos` of
-- iteration `k`.
pub data Agrees (content : List ℕ) : Strategy → TestGenTypes → Option Private → ℕ → ℕ → Type 0 where
  static_fits :
      {value size : ℕ} {p : Option Private} {pos k : ℕ}
      → Agrees content static_strategy (static value size) p pos k
  sequence_fits :
      {size b pos k : ℕ}
      → b ≡ pos % 256
      → Agrees content sequence_strategy (sequence size) (some (byte b)) pos k
  increment_fits :
      {value size b pos k : ℕ}
      → b ≡ (value + k) % 256
      → Agrees content increment_strategy (increment value size) (some (byte b)) pos k
  blocks_fit :
      {bl : List ℕ} {bs : ℕ} {p : Option Private} {pos k : ℕ}
      → 0 < bs
      → Agrees content block_strategy (blocks bl bs) p pos k
  text_string_fits :
      {t : List ℕ} {p : Option Private} {pos k : ℕ}
      → Agrees content text_string_strategy (text_string t) p pos k
  hex_string_fits :
      {t : List ℕ} {p : Option Private} {pos k : ℕ}
      → Agrees content hex_string_strategy (hex_string t) p pos k
  file_fits :
      {path : String} {pos k : ℕ}
      → Agrees content file_strategy (file path) (some (text content)) pos k

pub length-count_up : (start n : ℕ) → length (count_up start n) ≡ n
length-count_up start zero = refl
length-count_up start (suc n) = ap suc (length-count_up (start + 1) n)

pub length-expand : (bs : ℕ) (bl : List ℕ) → length (expand bs bl) ≡ bs * length bl
length-expand bs [] = omega arith
length-expand bs (b ∷ bl) = omega (
  arith,
  length-append (replicate bs b) (expand bs bl),
  length-replicate bs b,
  length-expand bs bl,
)

-- Every iteration has the same length.
pub length-iteration :
    (cfg : TestGenTypes) (content : List ℕ) (k j : ℕ)
    → length (iteration cfg content k) ≡ length (iteration cfg content j)
length-iteration (increment value size) content k j =
    omega
      (arith, length-replicate size ((value + k) % 256), length-replicate size ((value + j) % 256))
length-iteration _ content k j = refl
