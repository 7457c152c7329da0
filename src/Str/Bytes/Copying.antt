-- ===== src/Str/Bytes/Copying.antt =====
-- `memset` and `memmove` write their block and nothing else.
use swe3004_operating_system.Prelude.{
  ℕ, zero, suc, ◌+◌, ◌-◌, ◌*◌, ◌/◌, ◌%◌, ◌^◌, ◌≤◌, ◌<◌, ◌≡◌, refl, ◌∙◌, Bool, true, false, ◌&&◌,
  leb, ltb, ◌==◌, if◌then◌else◌, arith, update, inl, inr, Bool-cases,
}
use swe3004_operating_system.Str.Bytes.{
  stosb, put_word, stosl, four_times, memset, copy_down, copy_up, memmove,
}

-- `a` is one of the `n` addresses from `addr` on.
abbrev pub is_in : (addr n a : ℕ) → Bool
is_in addr n a = leb addr a && ltb a (addr + n)

stosb_lem :
    (n addr c a : ℕ) (m : ℕ → ℕ) → stosb n addr c m a ≡ (if is_in addr n a then c % 256 else m a)
unfolding stosb update
stosb_lem zero addr c a m = ground arith
stosb_lem (suc n) addr c a m = stosb_lem n (addr + 1) c a (update m addr (c % 256)) ∙ ground arith

four_bytes :
    (c : ℕ)
    → c < 256
    → (four_times c % 256 ≡ c)
      × (four_times c / 2 ^ 8 % 256 ≡ c)
      × (four_times c / 2 ^ 16 % 256 ≡ c)
      × (four_times c / 2 ^ 24 % 256 ≡ c)
four_bytes c h = (omega arith, omega arith, omega arith, omega arith)

put_word_lem :
    (addr c a : ℕ) (m : ℕ → ℕ)
    → c < 256
    → put_word addr (four_times c) m a ≡ (if is_in addr 4 a then c else m a)
unfolding put_word update
put_word_lem addr c a m h =
    let (b0, b1, b2, b3) = four_bytes c h in rw (b0, b1, b2, b3) (ground arith)

stosl_lem :
    (n addr c a : ℕ) (m : ℕ → ℕ)
    → c < 256
    → stosl n addr (four_times c) m a ≡ (if is_in addr (n * 4) a then c else m a)
unfolding stosl
stosl_lem zero addr c a m h = ground arith
stosl_lem (suc n) addr c a m h =
    stosl_lem n (addr + 4) c a (put_word addr (four_times c) m) h
    ∙ ground (arith, put_word_lem addr c a m h)

-- `memset` makes each of the `n` bytes from `dst` on the low byte of `c`, by words or by bytes, and
-- leaves every other byte as it was.
pub memset_lem :
    (dst c n a : ℕ) (m : ℕ → ℕ) → memset dst c n m a ≡ (if is_in dst n a then c % 256 else m a)
unfolding memset
memset_lem dst c n a m = elim (Bool-cases ((dst % 4 == 0) && (n % 4 == 0))) [
  | inl words ↦
      let size : n / 4 * 4 ≡ n = ground arith in
      rw words (stosl_lem (n / 4) dst (c % 256) a m (omega arith) ∙ rw size refl)
  | inr bytes ↦ rw bytes (stosb_lem n dst c a m)
]

copy_up_lem :
    (n d s a : ℕ) (m : ℕ → ℕ)
    → (ltb s d && ltb d (s + n)) ≡ false
    → copy_up n d s m a ≡ (if is_in d n a then m (s + (a - d)) else m a)
unfolding copy_up update
copy_up_lem zero d s a m apart = ground arith
copy_up_lem (suc n) d s a m apart =
    let rest = copy_up_lem n (d + 1) (s + 1) a (update m d (m s)) (ground arith) in
    rest ∙ elim (Bool-cases (a == d)) [
      | inl here ↦
          let at : a ≡ d = ground arith in
          let first : s + (d - d) ≡ s = omega arith in rw (at, first) (ground arith)
      | inr other ↦ elim (Bool-cases (is_in (d + 1) n a)) [
        | inl later ↦
            let index : s + 1 + (a - (d + 1)) ≡ s + (a - d) = ground arith in
            let unwritten : (s + (a - d) == d) ≡ false = ground arith in
            let inside : is_in d (suc n) a ≡ true = ground arith in
            rw (later, inside, index) (rw unwritten refl)
        | inr outside ↦
            let outside' : is_in d (suc n) a ≡ false = ground arith in
            rw (outside, outside', other) refl
      ]
    ]

copy_down_lem :
    (n d s a : ℕ) (m : ℕ → ℕ)
    → s ≤ d
    → copy_down n (d + n) (s + n) m a ≡ (if is_in d n a then m (s + (a - d)) else m a)
unfolding copy_down update
copy_down_lem zero d s a m below = ground arith
copy_down_lem (suc n) d s a m below =
    let d' : d + suc n - 1 ≡ d + n = omega arith in
    let s' : s + suc n - 1 ≡ s + n = omega arith in
    let rest = copy_down_lem n d s a (update m (d + n) (m (s + n))) below in
    rw (d', s')
      (rest ∙ elim (Bool-cases (a == d + n)) [
        | inl last ↦
            let at : a ≡ d + n = ground arith in
            let index : s + (d + n - d) ≡ s + n = omega arith in rw (at, index) (ground arith)
        | inr other ↦ elim (Bool-cases (is_in d n a)) [
          | inl before ↦
              let unwritten : (s + (a - d) == d + n) ≡ false = ground arith in
              let inside : is_in d (suc n) a ≡ true = ground arith in
              rw (before, inside) (rw unwritten refl)
          | inr outside ↦
              let outside' : is_in d (suc n) a ≡ false = ground arith in
              rw (outside, outside', other) refl
        ]
      ])

-- `memmove` copies: each byte of the block at `dst` becomes what stood at its place in the block at
-- `src` before, however the two overlap, and every other byte is as it was.
pub memmove_lem :
    (dst src n a : ℕ) (m : ℕ → ℕ)
    → memmove dst src n m a ≡ (if is_in dst n a then m (src + (a - dst)) else m a)
unfolding memmove
memmove_lem dst src n a m = elim (Bool-cases (ltb src dst && ltb dst (src + n))) [
  | inl overlaps ↦ rw overlaps (copy_down_lem n dst src a m (ground arith))
  | inr apart ↦ rw apart (copy_up_lem n dst src a m apart)
]
