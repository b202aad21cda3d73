-- ===== src/Tests/Wrappers.antt =====
-- The typed reads and writes of src/sock/mod.rs on sample inputs.
use polysock.Base.{ℕ, ◌*◌, ◌+◌, ◌/◌, ◌%◌, ◌≡◌, refl, List, [], ◌∷◌, arith}
use polysock.Base.{replicate, ok, returns, write_at}
use polysock.Sock.{ComplexSock}
use polysock.Base.{if◌then◌else◌, ltb, pure}
use polysock.Sock.Wrapper.{Pod, u8, encode, elements, read_loop, read_all_loop}
use polysock.Sock.Wrapper.Bytes.{IsPod, elements-encode}
use polysock.Sock.Wrapper.Transfer.{read_loop-read}
use polysock.Sock.Wrapper.Delivers.{read_all_loop-Delivers}
use polysock.Tests.Samples.{sink, two_reads, two_reads_Deliver}

abbrev join : List ℕ → ℕ
join [] = 0
join (a ∷ []) = 0
join (a ∷ b ∷ bs) = a + 256 * b

-- `u16` on a little-endian machine.
abbrev u16 : Pod ℕ
u16 = record { size_of = 2; to_bytes = λ n. n % 256 ∷ n / 256 ∷ []; from_bytes = join }

u16-IsPod : IsPod u16
u16-IsPod = record {
  size_pos = omega arith;
  length-to_bytes = λ n. refl;
  from_bytes-to_bytes = λ n. omega arith;
}

-- A socket that answers every read with the same four bytes.
abbrev source : ComplexSock
source = record sink {
  read = λ buffer n s. returns (4, write_at buffer 0 (1 ∷ 2 ∷ 3 ∷ 4 ∷ [])) s [];
}

read_loop-read_example :
    read_loop source 7 6 0 (replicate 6 0)
    ≡ (if ltb 0 6 then source.read (replicate 6 0) 6 else pure (0, replicate 6 0))
read_loop-read_example = read_loop-read source 5 6 (replicate 6 0)

elements-encode_example : elements u16 2 1 (9 ∷ 9 ∷ 1 ∷ 2 ∷ 3 ∷ 4 ∷ 9 ∷ []) ≡ ok (513 ∷ 1027 ∷ [])
unfolding encode
elements-encode_example =
    elements-encode u16 u16-IsPod (513 ∷ 1027 ∷ []) (9 ∷ 9 ∷ []) (9 ∷ []) 1 refl

read_all_loop-Delivers_example :
    read_all_loop two_reads u8 2 3 [] ((1 ∷ 2 ∷ 3 ∷ []) ∷ (4 ∷ []) ∷ [])
    ≡ returns (1 ∷ 2 ∷ 3 ∷ 4 ∷ []) [] []
read_all_loop-Delivers_example =
    read_all_loop-Delivers two_reads 3 (omega arith) (omega arith) 2 [] two_reads_Deliver
      (omega arith)
