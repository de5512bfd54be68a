-- ===== src/Filter/Strings/Search.antt =====
-- The comparisons of strings select, over all threads of the pool, the rows whose string passes the
-- test.
use optimized_hash_join_pipe.Base.{
  ℕ, zero, suc, ◌+◌, ◌-◌, ◌*◌, ◌/◌, ◌%◌, ◌^◌, ◌<◌, ◌≤◌, min, ◌≡◌, refl, arith, ap, ◌∙◌, subst, ◌==◌,
  leb, not, ◌&&◌, Bool, Option, some, none, List, [], length, get_or, set, bit_or, to_nat,
  bit-shifted, Bool-cases, inl, inr,
}
use optimized_hash_join_pipe.Base.Partial.{Returns, ◌>>=◌, load, store, load-get_or, store-set}
use optimized_hash_join_pipe.Filter.{filter_run}
use optimized_hash_join_pipe.Filter.Shares.{run-Done}
use optimized_hash_join_pipe.Filter.Bitmap.Rows.{row_bit, Bytes, is_not_null-row_bit}
use optimized_hash_join_pipe.Filter.Bitmap.Selecting.{Selecting, zeros-Selecting, next_row}
use optimized_hash_join_pipe.Filter.Values.{zeros}
use optimized_hash_join_pipe.Filter.Values.Stored.{present, value_or, get_or-none}
use optimized_hash_join_pipe.Filter.Values.Select.{passes}
use optimized_hash_join_pipe.Filter.Strings.{
  String, StringColumn, string_row, string_bits, string_bytes, search_rows,
}
use optimized_hash_join_pipe.Filter.Strings.Kept.{Kept, get_string-value}

module _ (test : String → Bool) (c : StringColumn) (rows : List (Option String))
    (k : Kept c rows) where
  abbrev answer : ℕ → Bool
  answer i = passes test (get_or rows i none)

  abbrev width : ℕ
  width = length c.bitmap

  answered :
      (o : Option String) (b : ℕ)
      → b ≡ to_nat (present o)
      → (not (b == 0) && test (value_or [] o)) ≡ passes test o
  answered none b h = ground arith
  answered (some v) b h = ground arith

  string_row-Selecting :
      (ret : List ℕ) (byte_idx bit_idx : ℕ)
      → bit_idx < 8
      → byte_idx * 8 + bit_idx < length rows
      → Selecting answer width (byte_idx * 8 + bit_idx) ret
      → Returns
          (string_row test c ret byte_idx bit_idx)
          (Selecting answer width (byte_idx * 8 + bit_idx + 1))
  unfolding string_row
  string_row-Selecting ret byte_idx bit_idx few l sel =
      let m = byte_idx * 8 + bit_idx in
      let byte : byte_idx ≡ m / 8 = omega arith in
      let place : bit_idx ≡ m % 8 = omega arith in
      let inside : m / 8 < width = omega (arith, k.marked.width) in
      let w : ℕ = to_nat (answer m) * 2 ^ bit_idx in
      let same : (not (row_bit c.bitmap m == 0) && test (value_or [] (get_or rows m none)))
          ≡ answer m =
        answered (get_or rows m none) (row_bit c.bitmap m) (k.marked.bits m) in
      let written = set ret (m / 8) (bit_or (get_or ret (m / 8) 0) w % 2 ^ 8) in
      let load_byte : load ret byte_idx ≡ some (get_or ret (m / 8) 0) =
        ap (load ret) byte ∙ load-get_or ret (m / 8) 0 (omega (arith, sel.same_width)) in
      let store_byte : store ret byte_idx (bit_or (get_or ret (m / 8) 0) w % 2 ^ 8) ≡ some written =
        ap (λ (b : ℕ). store ret b (bit_or (get_or ret (m / 8) 0) w % 2 ^ 8)) byte
        ∙ store-set ret (m / 8) (bit_or (get_or ret (m / 8) 0) w % 2 ^ 8)
            (omega (arith, sel.same_width)) in
      (
        written,
        rw (is_not_null-row_bit c.bitmap m inside, ◌>>=◌)
            (rw (get_string-value c rows k m l, ◌>>=◌)
              (rw (load_byte, ◌>>=◌) (rw same store_byte))),
        next_row answer width m ret sel w inside (λ j jl.
            bit-shifted (answer m) j bit_idx
            ∙ ap (λ (b : ℕ). min (to_nat (answer m)) (to_nat (j == b))) place),
      )

  -- The inner loop goes to the end of the byte, or of the rows.
  string_bits-Selecting :
      (rounds : ℕ) (ret : List ℕ) (byte_idx bit_idx : ℕ)
      → bit_idx + rounds ≡ 8
      → Selecting answer width (min (byte_idx * 8 + bit_idx) (length rows)) ret
      → Returns
          (string_bits test c ret byte_idx bit_idx rounds)
          (Selecting answer width (min (byte_idx * 8 + 8) (length rows)))
  unfolding string_bits
  string_bits-Selecting zero ret byte_idx bit_idx e sel =
      (ret, refl, subst (λ (m : ℕ). Selecting answer width m ret) (omega arith) sel)
  string_bits-Selecting (suc rounds) ret byte_idx bit_idx e sel =
      elim (Bool-cases (leb c.row (byte_idx * 8 + bit_idx))) [
        | inl past ↦ (
          ret,
          rw past,
          subst (λ (m : ℕ). Selecting answer width m ret)
              (let below : length rows ≤ byte_idx * 8 + bit_idx = ground (arith, k.count) in
                omega (arith, below))
              sel,
        )
        | inr within ↦
            let below : byte_idx * 8 + bit_idx < length rows = ground (arith, k.count) in
            let (next, first, mid) =
              string_row-Selecting ret byte_idx bit_idx (omega arith) below
                (subst (λ (m : ℕ). Selecting answer width m ret) (omega (arith, below)) sel) in
            let (last, rest, done) =
              string_bits-Selecting rounds next byte_idx (bit_idx + 1) (omega arith)
                (subst (λ (m : ℕ). Selecting answer width m next) (omega (arith, below)) mid) in
            (last, rw within (rw (first, ◌>>=◌) rest), done)
      ]

  string_bytes-Selecting :
      (rounds : ℕ) (ret : List ℕ) (byte_idx : ℕ)
      → Selecting answer width (min (byte_idx * 8) (length rows)) ret
      → Returns
          (string_bytes test c ret byte_idx rounds)
          (Selecting answer width (min ((byte_idx + rounds) * 8) (length rows)))
  unfolding string_bytes
  string_bytes-Selecting zero ret byte_idx sel =
      (ret, refl, subst (λ (m : ℕ). Selecting answer width m ret) (omega arith) sel)
  string_bytes-Selecting (suc rounds) ret byte_idx sel =
      let (next, first, mid) =
        string_bits-Selecting 8 ret byte_idx 0 (omega arith)
          (subst (λ (m : ℕ). Selecting answer width m ret) (omega arith) sel) in
      let (last, rest, done) =
        string_bytes-Selecting rounds next (byte_idx + 1)
          (subst (λ (m : ℕ). Selecting answer width m next) (omega arith) mid) in
      (
        last,
        rw (first, ◌>>=◌) rest,
        subst (λ (m : ℕ). Selecting answer width m last) (omega arith) done,
      )

  -- A comparison of a string column, run by the pool's 12 threads, succeeds, and sets the bit of
  -- a row exactly if the row is not null and its string passes the test; all other bits are 0.
  pub search_rows-passes : Returns (search_rows test c) λ ret.
      (length ret ≡ length c.bitmap)
      × Bytes ret
      × ((i : ℕ) → row_bit ret i ≡ to_nat (passes test (get_or rows i none)))
  unfolding search_rows filter_run
  search_rows-passes =
      let n = length rows in
      let (ret, ran, sel) =
        run-Done 12 ((c.row + 7) / 8) (omega arith)
          (λ r byte_begin byte_end. string_bytes test c r byte_begin (byte_end - byte_begin))
          (λ b r. Selecting answer width (min (b * 8) n) r)
          (λ r a b less fits sel.
            let (r', run, done) = string_bytes-Selecting (b - a) r a sel in
            (r', run, subst (λ (m : ℕ). Selecting answer width m r') (omega arith) done))
          (zeros width)
          (subst (λ (m : ℕ). Selecting answer width m (zeros width)) (omega arith)
            (zeros-Selecting answer width)) in
      (ret, ran, (sel.same_width, sel.bytes, λ i. sel.bits i ∙ ground (arith, k.count, behind i)))
    where
      behind : (i : ℕ) → length rows ≤ i → to_nat (answer i) ≡ 0
      behind i h = ap (λ o. to_nat (passes test o)) (get_or-none [] rows i h)
