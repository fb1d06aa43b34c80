-- ===== src/Libc/Decimal.antt =====
-- `itoa` writes decimal notation.
use so2_zeos.Prelude.{
  ℕ, zero, suc, ◌+◌, ◌-◌, ◌*◌, ◌/◌, ◌%◌, ◌≤◌, ◌<◌, ◌≡◌, ◌≢◌, inl, inr, refl, ◌∙◌, ◌==◌, ltb, arith,
  Bool-cases, update, if◌then◌else◌, pos, sym, ap, ltb→lt,
}
use so2_zeos.Libc.{put_digits, reverse_digits, swap_ends, itoa, strlen_from}

-- `n` digits from index `i` on as a number, the lowest first
abbrev little : (n i : ℕ) → (ℕ → ℕ) → ℕ
little zero i b = 0
little (suc n) i b = (b i - b'0') + 10 * little n (i + 1) b

-- the first `n` digits as a number, the highest first: how a decimal is read
abbrev pub decimal : ℕ → (ℕ → ℕ) → ℕ
decimal zero b = 0
decimal (suc n) b = 10 * decimal n b + (b n - b'0')

abbrev pub IsDigit : ℕ → Type 0
IsDigit c = (b'0' ≤ c) × (c ≤ b'9')

-- what the loop of the digits leaves: `n` of them, from index `i` on
record Digits (a i n : ℕ) (b b' : ℕ → ℕ) : Type 0 where
  kept : (j : ℕ) → j < i → b' j ≡ b j
  value : little n i b' ≡ a
  digit : (j : ℕ) → i ≤ j → j < i + n → IsDigit (b' j)
  highest : 0 < a → (0 < n) × (b' (i + n - 1) ≢ b'0')
  few : n ≤ a

put_digits-Digits :
    (fuel a i : ℕ) (b : ℕ → ℕ)
    → a ≤ fuel
    → (n : ℕ) × ((put_digits fuel a i b).0 ≡ i + n) × Digits a i n b (put_digits fuel a i b).1
unfolding put_digits
put_digits-Digits zero a i b le = (
  0,
  omega arith,
  record {
    kept = λ j h. refl;
    value = omega arith;
    digit = λ j lo hi. absurd (omega arith);
    highest = λ h. absurd (omega arith);
    few = omega arith;
  },
)
put_digits-Digits (suc fuel) a i b le = elim (Bool-cases (ltb 0 a)) [
  | inr e ↦ rw e (
    0,
    omega arith,
    record {
      kept = λ j h. refl;
      value = ground arith;
      digit = λ j lo hi. absurd (omega arith);
      highest = λ h. absurd (ground arith);
      few = omega arith;
    },
  )
  | inl e ↦
      let c = a % 10 + b'0' in
      let (n, ends, d) = put_digits-Digits fuel (a / 10) (i + 1) (update b i c) (ground arith) in
      let at : (put_digits fuel (a / 10) (i + 1) (update b i c)).1 i ≡ c =
        d.kept i (omega arith) ∙ ground arith in
      rw e (
        suc n,
        omega arith,
        record {
          kept = λ j h. d.kept j (omega arith) ∙ ground arith;
          value = omega (arith, d.value, at);
          digit = λ j lo hi. elim (Bool-cases (j == i)) [
            | inl same ↦ let same' : j ≡ i = ground arith in rw (same', at) (omega arith)
            | inr other ↦ d.digit j (ground arith) (omega arith)
          ];
          highest = λ h. (
            omega arith,
            elim (Bool-cases (ltb 0 (a / 10))) [
              | inl more ↦
                  let last : i + suc n - 1 ≡ i + 1 + n - 1 = omega arith in
                  rw last (d.highest (ground arith)).1
              | inr done ↦
                  let one : a / 10 ≡ 0 = ground arith in
                  let last : i + suc n - 1 ≡ i = omega (arith, d.few) in
                  rw (last, at) (omega (arith, ltb→lt 0 a e))
            ],
          );
          few = ground (arith, d.few);
        },
      )
]

-- One round of the loop that turns the digits round.
swapped :
    (i1 i j : ℕ) (b : ℕ → ℕ)
    → i1 < i / 2
    → (if ltb j (i1 + 1)
        then swap_ends i1 i b j
        else if ltb j (i - (i1 + 1))
        then swap_ends i1 i b (i - 1 - j)
        else swap_ends i1 i b j)
      ≡ (if ltb j i1 then b j else if ltb j (i - i1) then b (i - 1 - j) else b j)
swapped i1 i j b lt = elim (Bool-cases (j == i1)) [
  | inl e ↦
      let at : j ≡ i1 = ground arith in
      let x : i - i1 - 1 ≡ i - 1 - i1 = omega arith in rw at (ground (arith, ap b x))
  | inr ne ↦ elim (Bool-cases (j == (i - i1 - 1))) [
    | inl e ↦ let x : i - 1 - j ≡ i1 = ground arith in ground (arith, ap b x)
    | inr ne' ↦ ground arith
  ]
]

-- The loop.
reverse_digits-lem :
    (rounds i1 i : ℕ) (b : ℕ → ℕ) (j : ℕ)
    → i1 + rounds ≡ i / 2
    → reverse_digits rounds i1 i b j
      ≡ (if ltb j i1 then b j else if ltb j (i - i1) then b (i - 1 - j) else b j)
unfolding reverse_digits
reverse_digits-lem zero i1 i b j e = elim (Bool-cases (ltb j i1)) [
  | inl low ↦ rw low
  | inr high ↦ rw high (elim (Bool-cases (ltb j (i - i1))) [
    | inl mid ↦ let same : j ≡ i - 1 - j = ground arith in rw mid (ap b same)
    | inr out ↦ rw out
  ])
]
reverse_digits-lem (suc rounds) i1 i b j e =
    let ih = reverse_digits-lem rounds (i1 + 1) i (swap_ends i1 i b) j (omega arith) in
    ih ∙ swapped i1 i j b (omega arith)

-- Digits that stand in the other order have the same value.
decimal-little :
    (n i : ℕ) (b b' : ℕ → ℕ)
    → ((j : ℕ) → j < n → b' j ≡ b (i + n - 1 - j))
    → decimal n b' ≡ little n i b
decimal-little zero i b b' e = refl
decimal-little (suc n) i b b' e =
    let last : b' n ≡ b i = e n (omega arith) ∙ ap b (omega arith) in
    let ih = decimal-little n (i + 1) b b' (λ j h. e j (omega arith) ∙ ap b (omega arith)) in
    omega (arith, last, ih)

-- The loop of `strlen` stops at the first 0.
strlen_from-eq :
    (fuel i n : ℕ) (b : ℕ → ℕ)
    → ((j : ℕ) → i ≤ j → j < n → b j ≢ 0)
    → b n ≡ 0
    → i ≤ n
    → n < i + fuel
    → strlen_from fuel i b ≡ n
unfolding strlen_from
strlen_from-eq zero i n b ne e le lt = absurd (omega arith)
strlen_from-eq (suc fuel) i n b ne e le lt = elim (Bool-cases (i == n)) [
  | inl at ↦ ground arith
  | inr before ↦
      ground (arith, ne i, strlen_from-eq fuel (i + 1) n b (λ j lo hi. ne j (omega arith) hi) e)
]

-- a number written in decimal, in `n` bytes and a 0
record Written (a n : ℕ) (r : ℕ → ℕ) : Type 0 where
  value : decimal n r ≡ a
  ends : r n ≡ 0
  digit : (j : ℕ) → j < n → IsDigit (r j)
  highest : a ≢ 0 → r 0 ≢ b'0'
  few : n ≤ a + 1

-- the text that is left when the digits have been turned round
finished-Written :
    (a i n : ℕ) (b b' : ℕ → ℕ)
    → a ≢ 0
    → i ≡ n
    → Digits a 0 n b b'
    → Written a n (update (reverse_digits (i / 2) 0 i b') i 0)
finished-Written a i n b b' nz e d =
    let r = update (reverse_digits (i / 2) 0 i b') i 0 in
    let turned = λ (j : ℕ) (h : j < n).
      let t : r j ≡ b' (i - 1 - j) =
        ground (arith, reverse_digits-lem (i / 2) 0 i b' j (omega arith)) in
      t ∙ ap (λ m. b' (m - 1 - j)) e in
    let top = d.highest (omega arith) in
    let first = turned 0 top.0 in
    let same : 0 + n - 1 ≡ n - 1 - 0 = omega arith in
    record {
      value = decimal-little n 0 b' r (λ j h. turned j h ∙ ap b' (omega arith)) ∙ d.value;
      ends = ground arith;
      digit = λ j h. rw (turned j h) (d.digit (n - 1 - j) (omega arith) (omega arith));
      highest = λ h z. top.1 (ap b' same ∙ sym first ∙ z);
      few = omega (arith, d.few);
    }

itoa-Written : (a : ℕ) (b : ℕ → ℕ) → (n : ℕ) × Written a n (itoa (pos a) b)
unfolding itoa
itoa-Written a b = elim (Bool-cases (a == 0)) [
  | inl z ↦ rw z (
    1,
    record {
      value = ground arith;
      ends = refl;
      digit = λ j h. ground arith;
      highest = λ h. absurd (ground arith);
      few = omega arith;
    },
  )
  | inr nz ↦
      let (n, e, d) = put_digits-Digits a a 0 b (omega arith) in
      rw nz (
        n,
        finished-Written a (put_digits a a 0 b).0 n b (put_digits a a 0 b).1 (ground arith)
            (omega arith) d,
      )
]

-- `itoa` of a number that is not negative, into a buffer of any content, writes its decimal digits,
-- the highest first and not 0 but for the number 0, with a 0 behind them: `strlen` counts them, and
-- they read as the number.
pub itoa-decimal :
    (a : ℕ) (b : ℕ → ℕ)
    → let r = itoa (pos a) b in
      let n = strlen_from (a + 2) 0 r in
      (decimal n r ≡ a) × (r n ≡ 0) × ((j : ℕ) → j < n → IsDigit (r j)) × (a ≢ 0 → r 0 ≢ b'0')
itoa-decimal a b =
    let (n, w) = itoa-Written a b in
    let r = itoa (pos a) b in
    let e : strlen_from (a + 2) 0 r ≡ n =
      strlen_from-eq (a + 2) 0 n r (λ j lo hi z. omega (arith, w.digit j hi, z)) w.ends
        (omega arith) (omega (arith, w.few)) in
    rw e (w.value, w.ends, w.digit, w.highest)
