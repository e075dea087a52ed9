-- ===== src/Envelope/Wire/Laws.antt =====
-- Reading what stands at a position of a value.
use ruststream_fred.Common.{
  ℕ, zero, suc, ◌+◌, ◌^◌, ◌<◌, ◌≡◌, refl, sym, ap, ◌∙◌, arith, [], ◌∷◌, ◌++◌, some, length, drop,
  length-append, take-append_self, drop-append_self,
}
use ruststream_fred.Server.Text.{Bytes}
use ruststream_fred.Envelope.Wire.{
  checked_end, range, read_slice, u32_bytes, u16_bytes, read_u32, read_u16,
}

-- From `pos` on, `bytes` holds `rest`; `bytes` is short enough for its positions to be `usize`.
pub record HoldsAt (bytes : Bytes) (pos : ℕ) (rest : Bytes) : Type 0 where
  pub within : length bytes ≡ pos + length rest
  pub dropped : drop pos bytes ≡ rest
  pub small : length bytes < 2 ^ 64

drop_nil : (i : ℕ) → drop {A = ℕ} i [] ≡ []
drop_nil zero = refl
drop_nil (suc i) = refl

drop-drop : (i j : ℕ) (xs : Bytes) → drop i (drop j xs) ≡ drop (j + i) xs
drop-drop i zero xs = ap (λ (n : ℕ). drop n xs) (omega arith)
drop-drop i (suc j) [] = drop_nil i ∙ sym (drop_nil (suc j + i))
drop-drop i (suc j) (x ∷ xs) =
    let same : suc (j + i) ≡ suc j + i = omega arith in
    drop-drop i j xs ∙ ap (λ (n : ℕ). drop n (x ∷ xs)) same

pub start-HoldsAt : (bytes : Bytes) → length bytes < 2 ^ 64 → HoldsAt bytes 0 bytes
start-HoldsAt bytes small = record { within = omega arith; dropped = refl; small = small }

pub past-HoldsAt :
    (bytes : Bytes) (pos : ℕ) (x rest : Bytes)
    → HoldsAt bytes pos (x ++ rest)
    → HoldsAt bytes (pos + length x) rest
past-HoldsAt bytes pos x rest h = record {
  within = omega (arith, h.within, length-append x rest);
  dropped =
      sym (drop-drop (length x) pos bytes)
      ∙ ap (drop (length x)) h.dropped
      ∙ drop-append_self x rest;
  small = h.small;
}

pub range_at :
    (bytes : Bytes) (pos : ℕ) (x rest : Bytes)
    → HoldsAt bytes pos (x ++ rest)
    → range pos (pos + length x) bytes ≡ some x
unfolding range
range_at bytes pos x rest h =
    ground (arith, h.within, h.dropped, length-append x rest, take-append_self x rest)

pub read_slice_at :
    (bytes : Bytes) (pos : ℕ) (x rest : Bytes)
    → HoldsAt bytes pos (x ++ rest)
    → read_slice bytes pos (length x) ≡ some (x, pos + length x)
unfolding read_slice checked_end range
read_slice_at bytes pos x rest h =
    ground (arith, h.within, h.small, h.dropped, length-append x rest, take-append_self x rest)

pub read_u32_at :
    (bytes : Bytes) (pos n : ℕ) (rest : Bytes)
    → n < 2 ^ 32
    → HoldsAt bytes pos (u32_bytes n ++ rest)
    → read_u32 bytes pos ≡ some (n, pos + 4)
unfolding read_u32 u32_bytes
read_u32_at bytes pos n rest fits h = ground (arith, read_slice_at bytes pos (u32_bytes n) rest h)

pub read_u16_at :
    (bytes : Bytes) (pos n : ℕ) (rest : Bytes)
    → n < 2 ^ 16
    → HoldsAt bytes pos (u16_bytes n ++ rest)
    → read_u16 bytes pos ≡ some (n, pos + 2)
unfolding read_u16 u16_bytes
read_u16_at bytes pos n rest fits h = ground (arith, read_slice_at bytes pos (u16_bytes n) rest h)
