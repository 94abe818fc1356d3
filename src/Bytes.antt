-- ===== src/Bytes.antt =====
-- github.com/lithdew/bytesutil, which is not part of the repository: what the code calls, and its
-- documented behaviour. The code's own functions take the operations as an argument.
use slept.Prelude.{ℕ, ◌+◌, ◌*◌, ◌/◌, ◌%◌, ◌<◌, ◌≡◌, refl, List, [], ◌∷◌, ◌++◌, length, arith}
use slept.Prelude.{take, replicate, length-append, length-take, length-replicate}

pub record BytesUtil : Type 0 where
  pub append_uint16_be : List ℕ → ℕ → List ℕ
  pub uint16_be : List ℕ → ℕ
  pub extend_slice : List ℕ → ℕ → List ℕ

-- "AppendUint16BE appends v to dst in big-endian order", "Uint16BE reads the first two bytes", and
-- "ExtendSlice resizes b to n bytes". The bytes that the last one adds are unspecified.
pub record IsBigEndian (u : BytesUtil) : Type 0 where
  pub append_lem :
      (dst : List ℕ) (v : ℕ) → v < 65536 → u.append_uint16_be dst v ≡ dst ++ v / 256 ∷ v % 256 ∷ []
  pub uint16_lem : (hi lo : ℕ) → hi < 256 → lo < 256 → u.uint16_be (hi ∷ lo ∷ []) ≡ hi * 256 + lo
  pub extend_length : (b : List ℕ) (n : ℕ) → length (u.extend_slice b n) ≡ n

-- An implementation, for the runs.
abbrev pub read_uint16 : List ℕ → ℕ
read_uint16 [] = 0
read_uint16 (hi ∷ []) = 0
read_uint16 (hi ∷ lo ∷ r) = hi * 256 + lo

abbrev pub zeros : ℕ → List ℕ
zeros n = replicate n 0

abbrev pub reference : BytesUtil
reference = record {
  append_uint16_be = λ dst v. dst ++ v / 256 ∷ v % 256 ∷ [];
  uint16_be = read_uint16;
  extend_slice = λ b n. take n (b ++ zeros n);
}

pub reference-IsBigEndian : IsBigEndian reference
reference-IsBigEndian = record {
  append_lem = λ dst v h. refl;
  uint16_lem = λ hi lo h k. refl;
  extend_length = λ b n. omega (
    arith,
    length-take n (b ++ zeros n),
    length-append b (zeros n),
    length-replicate {A = ℕ} n 0,
  );
}
