-- ===== src/Journal/Writable.antt =====
-- How many journal entries fit into the rest of a block (src/journal/journal_writer.cc,
-- `generic_calculate_writable_entry_num`).
use native.Mathlib.Nat.{le-div_iff_mul-le, le_refl, mul-le-mul_right}
use hscfs.Base.{
  ℕ, zero, suc, ◌+◌, ◌-◌, ◌*◌, ◌/◌, ◌%◌, ◌^◌, ◌≤◌, ◌<◌, ◌≡◌, ◌⊎◌, inl, inr, refl, Option, none,
  some, arith, ltb, leb, ◌==◌, if◌then◌else◌, Bool-cases, ◌∙◌,
}

-- sizeof(meta_journal_entry)
abbrev pub entry_header_len : ℕ
entry_header_len = 4

-- The recursion, on fuel; `none` means that the fuel ran out. The products are of 64-bit words.
unfoldable pub writable_from : ℕ → ℕ → ℕ → ℕ → Option ℕ
writable_from zero buffer_size entry_size expected_write_num = none
writable_from (suc fuel) buffer_size entry_size expected_write_num =
    let expected_write_len = (entry_header_len + expected_write_num * entry_size) % 2 ^ 64 in
    let retry =
      writable_from fuel buffer_size entry_size ((buffer_size - entry_header_len) / entry_size) in
    if ltb expected_write_len buffer_size
    then some (
        if leb entry_header_len (buffer_size - expected_write_len)
        then expected_write_num
        else if ltb (2 * entry_header_len) buffer_size
        then (buffer_size - 2 * entry_header_len) / entry_size
        else 0)
    else if expected_write_len == buffer_size
    then some expected_write_num
    else if ltb buffer_size entry_header_len
    then some 0
    else retry

-- The calls are at most two deep (`writable-Largest`).
unfoldable pub generic_calculate_writable_entry_num : ℕ → ℕ → ℕ → Option ℕ
generic_calculate_writable_entry_num = writable_from 2

-- A header with `k` entries ends at the end of the buffer or leaves room for another header.
abbrev pub Fits : ℕ → ℕ → ℕ → Type 0
Fits buffer size k =
    (entry_header_len + k * size ≡ buffer) ⊎ (2 * entry_header_len + k * size ≤ buffer)

-- `r` is the largest number of entries, of those expected, that fits; 0 if none does.
pub record Largest (buffer size expected r : ℕ) : Type 0 where
  pub expected_bound : r ≤ expected
  pub fits : (r ≡ 0) ⊎ Fits buffer size r
  pub largest : (k : ℕ) → k ≤ expected → Fits buffer size k → k ≤ r

-- A quotient is the largest factor.
quotient_largest : (n d k : ℕ) → 0 < d → ((n / d) * d ≤ n) × (k * d ≤ n → k ≤ n / d)
quotient_largest n d k h =
    ((le-div_iff_mul-le h).0 (le_refl (n / d)), λ m. (le-div_iff_mul-le h).1 m)

module _ (buffer size : ℕ) (pos : 0 < size) where
  abbrev Gives : ℕ → Option ℕ → Type 0
  Gives n result = (r : ℕ) × (result ≡ some r) × Largest buffer size n r

  -- All entries fit.
  all_fit :
      (fuel n : ℕ)
      → entry_header_len + n * size < 2 ^ 64
      → Fits buffer size n
      → Gives n (writable_from (suc fuel) buffer size n)
  unfolding writable_from
  all_fit fuel n word fit = (
    n,
    ground arith,
    record { expected_bound = omega arith; fits = inr fit; largest = λ k le _. le },
  )

  -- They would end too near the end of the buffer.
  too_near :
      (fuel n : ℕ)
      → entry_header_len + n * size < 2 ^ 64
      → entry_header_len + n * size < buffer
      → buffer < 2 * entry_header_len + n * size
      → Gives n (writable_from (suc fuel) buffer size n)
  unfolding writable_from
  too_near fuel n word short near = elim (Bool-cases (ltb 8 buffer)) [
    | inl room ↦
        let q = (buffer - 8) / size in
        let below : q * size ≤ buffer - 8 = (quotient_largest (buffer - 8) size 0 pos).0 in
        (
          q,
          ground arith,
          record {
            expected_bound = fewer q (ground arith);
            fits = inr (inr (ground arith));
            largest = λ k le fit. near_largest k le fit;
          },
        )
    | inr none_left ↦ (
      0,
      ground arith,
      record {
        expected_bound = omega arith;
        fits = inl refl;
        largest = λ k le fit. none_largest k le fit (ground arith);
      },
    )
  ]
    where
      fewer : (q : ℕ) → q * size + 8 ≤ buffer → q ≤ n
      fewer q h = elim (Bool-cases (leb q n)) [
        | inl le ↦ ground arith
        | inr gt ↦ absurd (omega (arith, mul-le-mul_right {m = suc n} {n = q} size (ground arith)))
      ]

      near_largest : (k : ℕ) → k ≤ n → Fits buffer size k → k ≤ (buffer - 8) / size
      near_largest k le (inl exact) = absurd (omega (arith, mul-le-mul_right size le))
      near_largest k le (inr roomy) = (quotient_largest (buffer - 8) size k pos).1 (omega arith)

      none_largest : (k : ℕ) → k ≤ n → Fits buffer size k → buffer ≤ 8 → k ≤ 0
      none_largest zero le fit h = omega arith
      none_largest (suc k) le (inl exact) h = absurd (omega (arith, mul-le-mul_right size le))
      none_largest (suc k) le (inr roomy) h = absurd (omega arith)

  direct_cases :
      (n : ℕ)
      → entry_header_len + n * size ≤ buffer
      → Fits buffer size n
        ⊎ ((entry_header_len + n * size < buffer) × (buffer < 2 * entry_header_len + n * size))
  direct_cases n h = elim (Bool-cases (leb (2 * entry_header_len + n * size) buffer)) [
    | inl roomy ↦ inl (inr (ground arith))
    | inr near ↦ elim (Bool-cases (entry_header_len + n * size == buffer)) [
      | inl exact ↦ inl (inl (ground arith))
      | inr short ↦ inr (ground arith, ground arith)
    ]
  ]

  -- The calls that do not recur.
  direct-Gives :
      (fuel n : ℕ)
      → entry_header_len + n * size < 2 ^ 64
      → entry_header_len + n * size ≤ buffer
      → Gives n (writable_from (suc fuel) buffer size n)
  direct-Gives fuel n word h = elim (direct_cases n h) [
    | inl fit ↦ all_fit fuel n word fit
    | inr (short, near) ↦ too_near fuel n word short near
  ]

  -- More is expected than the buffer holds: the answer for what the buffer would hold.
  retry-Largest :
      (n r : ℕ)
      → buffer < entry_header_len + n * size
      → entry_header_len ≤ buffer
      → Largest buffer size ((buffer - entry_header_len) / size) r
      → Largest buffer size n r
  retry-Largest n r long header l = record {
    expected_bound = bound;
    fits = l.fits;
    largest =
        λ k le fit. l.largest k ((quotient_largest (buffer - 4) size k pos).1 (ground arith)) fit;
  }
    where
      bound : r ≤ n
      bound = elim (Bool-cases (leb r n)) [
        | inl le ↦ ground arith
        | inr gt ↦ absurd (
            omega (
              arith,
              mul-le-mul_right {m = n} {n = (buffer - 4) / size} size
                  (ground (arith, l.expected_bound)),
              (quotient_largest (buffer - 4) size 0 pos).0,
            ))
      ]

  tiny_result :
      (n : ℕ)
      → buffer < entry_header_len + n * size
      → buffer < entry_header_len
      → entry_header_len + n * size < 2 ^ 64
      → writable_from 2 buffer size n ≡ some 0
  unfolding writable_from
  tiny_result n long tiny word = ground arith

  retry_result :
      (n : ℕ)
      → buffer < entry_header_len + n * size
      → entry_header_len ≤ buffer
      → entry_header_len + n * size < 2 ^ 64
      → writable_from 2 buffer size n
        ≡ writable_from 1 buffer size ((buffer - entry_header_len) / size)
  unfolding writable_from
  retry_result n long header word = ground arith

  -- For entries that are not empty, and a buffer and a number of entries within the words, the recursion
  -- ends at its first or second call, and the result is the largest number of entries, of those
  -- expected, that fits.
  pub writable-Largest :
      (n : ℕ)
      → buffer < 2 ^ 64
      → entry_header_len + n * size < 2 ^ 64
      → (r : ℕ) × (generic_calculate_writable_entry_num buffer size n ≡ some r)
        × Largest buffer size n r
  unfolding generic_calculate_writable_entry_num
  writable-Largest n small word = elim (Bool-cases (leb (entry_header_len + n * size) buffer)) [
    | inl short ↦ direct-Gives 1 n word (ground arith)
    | inr long ↦ elim (Bool-cases (ltb buffer entry_header_len)) [
      | inl tiny ↦ (
        0,
        tiny_result n (ground arith) (ground arith) word,
        record {
          expected_bound = omega arith;
          fits = inl refl;
          largest = λ k le fit. absurd (ground arith);
        },
      )
      | inr header ↦
          let m = (buffer - entry_header_len) / size in
          let below : m * size ≤ buffer - 4 = (quotient_largest (buffer - 4) size 0 pos).0 in
          let (r, done, l) = direct-Gives 0 m (ground arith) (ground arith) in
          (
            r,
            retry_result n (ground arith) (ground arith) word ∙ done,
            retry-Largest n r (ground arith) (ground arith) l,
          )
    ]
  ]
