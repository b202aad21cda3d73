-- ===== src/Sock/Wrapper/Bytes.antt =====
-- src/sock/mod.rs, `SocketWrapper`: values and their bytes.
use polysock.Base.{ℕ, ◌+◌, ◌*◌, ◌≤◌, ◌<◌, ◌≡◌, refl, sym, ap, ◌∙◌}
use polysock.Base.{List, [], ◌∷◌, ◌++◌, append_assoc, arith, ok, le→ltb}
use polysock.Base.{length, take, drop, length-append, take-append_left, take-all, drop-append_right}
use polysock.Sock.Wrapper.{Pod, u8, encode, elements}

-- A value has as many bytes as its type says, and is read back from them.
pub record IsPod {T : Type 0} (pod : Pod T) : Type 0 where
  pub size_pos : 0 < pod.size_of
  pub length-to_bytes : (x : T) → length (pod.to_bytes x) ≡ pod.size_of
  pub from_bytes-to_bytes : (x : T) → pod.from_bytes (pod.to_bytes x) ≡ x

pub u8-IsPod : IsPod u8
u8-IsPod = record {
  size_pos = omega arith;
  length-to_bytes = λ b. refl;
  from_bytes-to_bytes = λ b. refl;
}

pub encode-u8 : (bs : List ℕ) → encode u8 bs ≡ bs
unfolding encode
encode-u8 [] = refl
encode-u8 (b ∷ bs) = ap (◌∷◌ b) (encode-u8 bs)

module _ {T : Type 0} (pod : Pod T) (law : IsPod pod) where
  open pod use {size_of, to_bytes, from_bytes}

  pub length-encode : (xs : List T) → length (encode pod xs) ≡ size_of * length xs
  unfolding encode
  length-encode [] = omega arith
  length-encode (x ∷ xs) =
      omega
        (arith, length-append (to_bytes x) (encode pod xs), law.length-to_bytes x, length-encode xs)

  -- The bytes of value `i`, behind those of the values before it.
  slice_lem :
      (pre tail : List ℕ) (i : ℕ) (x : T)
      → length pre ≡ i * size_of
      → take size_of (drop (i * size_of) (pre ++ (to_bytes x ++ tail))) ≡ to_bytes x
  slice_lem pre tail i x e =
      ap (take size_of) (drop-append_right (i * size_of) 0 pre (to_bytes x ++ tail) (omega arith))
      ∙ take-append_left size_of (to_bytes x) tail (omega (arith, law.length-to_bytes x))
      ∙ take-all size_of (to_bytes x) (omega (arith, law.length-to_bytes x))

  -- For a type whose values are read back from their bytes, the loop turns the bytes of values,
  -- behind those of `i` values before them, back into the values.
  pub elements-encode :
      (xs : List T) (pre post : List ℕ) (i : ℕ)
      → length pre ≡ i * size_of
      → elements pod (length xs) i (pre ++ (encode pod xs ++ post)) ≡ ok xs
  unfolding elements encode
  elements-encode [] pre post i e = refl
  elements-encode (x ∷ xs) pre post i e = rw (
    append_assoc (to_bytes x) (encode pod xs) post,
    le→ltb (length whole) (i * size_of + size_of) fits,
    slice_lem pre (encode pod xs ++ post) i x e,
    law.from_bytes-to_bytes x,
    sym (append_assoc pre (to_bytes x) (encode pod xs ++ post)),
    elements-encode xs (pre ++ to_bytes x) post (i + 1) behind,
  )
    where
      whole : List ℕ
      whole = pre ++ (to_bytes x ++ (encode pod xs ++ post))

      behind : length (pre ++ to_bytes x) ≡ (i + 1) * size_of
      behind = omega (arith, length-append pre (to_bytes x), law.length-to_bytes x)

      fits : i * size_of + size_of ≤ length whole
      fits = omega (
        arith,
        length-append pre (to_bytes x ++ (encode pod xs ++ post)),
        length-append (to_bytes x) (encode pod xs ++ post),
        law.length-to_bytes x,
      )
