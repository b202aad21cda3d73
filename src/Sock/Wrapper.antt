-- ===== src/Sock/Wrapper.antt =====
-- src/sock/mod.rs, `SocketWrapper`: typed reads and writes over a socket of bytes. Values of the
-- generic type `T` are read and written as their bytes in memory. Products of `usize` wrap, as in
-- a release build.
pub mod Bytes
pub mod Transfer
pub mod Delivers
use polysock.Base.{
  unwind, unwind_failed, ℕ, zero, suc, ◌+◌, ◌-◌, ◌*◌, ◌/◌, ◌%◌, ◌^◌, true, false, List, [], ◌∷◌,
  ◌++◌,
}
use polysock.Base.{ltb, ◌==◌, if◌then◌else◌, length, take, drop, replicate, write_at}
use polysock.Base.{M, Ret, Outcome, ok, err, panic, undefined, no_fuel, map_outcome, lift, pure}
use polysock.Base.{◌>>=◌}
use polysock.Sock.{ComplexSock}

-- A type of plain data: `size_of::<T>()`, and its values as bytes.
pub record Pod (T : Type 0) : Type 0 where
  pub size_of : ℕ
  pub to_bytes : T → List ℕ
  pub from_bytes : List ℕ → T

abbrev first_byte : List ℕ → ℕ
first_byte [] = 0
first_byte (b ∷ bs) = b

abbrev pub u8 : Pod ℕ
u8 = record { size_of = 1; to_bytes = λ b. b ∷ []; from_bytes = first_byte }

unfoldable pub mul_usize : ℕ → ℕ → ℕ
mul_usize a b = a * b % 2 ^ 64

module _ {T : Type 0} (pod : Pod T) where
  open pod use {size_of, to_bytes, from_bytes}

  -- The memory of a slice of values.
  unfoldable pub encode : List T → List ℕ
  encode [] = []
  encode (x ∷ xs) = to_bytes x ++ encode xs

  -- The loop over `i..i + n` that turns slices of the buffer into values.
  unfoldable pub elements : ℕ → ℕ → List ℕ → Outcome (List T)
  elements zero i buffer = ok []
  elements (suc n) i buffer =
      let start = i * size_of in
      let end = start + size_of in
      let rest = elements n (i + 1) buffer in
      if ltb (length buffer) end
      then panic
      else map_outcome (◌∷◌ (from_bytes (take size_of (drop start buffer)))) rest

-- The inner socket of a `SocketWrapper`.
module _ (simple_sock : ComplexSock) where
  open simple_sock use {State, open_sock, close, drop_sock, read, write}

  -- The drop of the wrapper: `Drop for SocketWrapper` closes the socket, and then the socket in the
  -- box is dropped, also if the close has panicked.
  abbrev pub drop_wrapper : M State (Unit {0})
  drop_wrapper s = unwind drop_sock (close s)

  -- `open` consumes the wrapper, so a failure drops it.
  unfoldable pub open_wrapper : M State (Unit {0})
  open_wrapper s = unwind_failed drop_wrapper (open_sock s)

  -- The `while` of `generic_read`, on fuel. A round reads into the buffer from `bytes_read` on.
  unfoldable pub read_loop : ℕ → ℕ → ℕ → List ℕ → M State (ℕ × List ℕ)
  read_loop zero bytes_needed bytes_read buffer = lift no_fuel
  read_loop (suc fuel) bytes_needed bytes_read buffer = elim (ltb bytes_read bytes_needed) [
    | false ↦ pure (bytes_read, buffer)
    | true ↦ do
      let chunk_iter = bytes_needed - bytes_read
      (chunk, tail) ← read (drop bytes_read buffer) chunk_iter
      let buffer' = take bytes_read buffer ++ tail
      elim (ltb chunk chunk_iter) [
        | true ↦ pure (bytes_read + chunk, buffer')
        | false ↦ read_loop fuel bytes_needed (bytes_read + chunk) buffer'
      ]
  ]

  -- The copy of the slice's memory into a buffer, and the write. The copy is undefined if the slice
  -- has fewer than `bytes_needed` bytes.
  unfoldable pub write_memory : ℕ → List ℕ → M State (Unit {0})
  write_memory bytes_needed memory = elim (ltb (length memory) bytes_needed) [
    | true ↦ lift undefined
    | false ↦
        let buffer = write_at (replicate bytes_needed 0) 0 (take bytes_needed memory) in
        write buffer bytes_needed
  ]

  module _ {T : Type 0} (pod : Pod T) where
    open pod use {size_of}

    -- The division by the size of a type of no bytes panics.
    unfoldable pub generic_read : ℕ → M State (List T)
    generic_read sz = do
      let bytes_needed = mul_usize size_of sz
      (bytes_read, buffer) ← read_loop 2 bytes_needed 0 (replicate bytes_needed 0)
      lift (if size_of == 0 then panic else elements pod (bytes_read / size_of) 0 buffer)

    unfoldable pub generic_write : List T → ℕ → M State (Unit {0})
    generic_write values sz = write_memory (mul_usize size_of sz) (encode pod values)

    -- The `loop` of `read_all`, on fuel.
    unfoldable pub read_all_loop : ℕ → ℕ → List T → M State (List T)
    read_all_loop zero chunk_size result = lift no_fuel
    read_all_loop (suc fuel) chunk_size result = do
      chunk ← generic_read chunk_size
      elim (ltb (length chunk) chunk_size) [
        | true ↦ pure (result ++ chunk)
        | false ↦ read_all_loop fuel chunk_size (result ++ chunk)
      ]

    unfoldable pub read_all : ℕ → M State (List T)
    read_all fuel = read_all_loop fuel 1024 []
