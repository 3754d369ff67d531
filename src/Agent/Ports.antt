-- ===== src/Agent/Ports.antt =====
-- The text of a port, as `op_p2p_request` of nvagent/src/p2p.c prints it: `snprintf(port_str, 6, "%d",
-- port)`. The port is read as an `int`, and five characters are kept.
use netvirt.Prelude.{
  ℕ, zero, suc, ◌+◌, ◌-◌, ◌*◌, ◌/◌, ◌%◌, ◌^◌, ◌≡◌, ◌≤◌, ◌<◌, ◌&&◌, refl, arith, ltb, leb,
  if◌then◌else◌, List, [], ◌∷◌, ◌++◌, take, take_past, length, Option, none, some, Bool-cases, inl,
  inr, true, false, ap, ◌∙◌, length-append,
}
use native.Mathlib.Nat.{pow-succ'}

-- The decimal digits of a number, at most as many as `fuel`.
unfoldable pub decimal : (fuel n : ℕ) → List ℕ
decimal zero n = []
decimal (suc fuel) n =
    let rest = decimal fuel (n / 10) in
    if ltb n 10 then (48 + n) ∷ [] else rest ++ ((48 + n % 10) ∷ [])

-- `port_str`; a number below 2 ^ 32 has at most ten digits.
unfoldable pub port_str : ℕ → List ℕ
port_str port =
    take 5 (if ltb port 2147483648 then decimal 10 port else 45 ∷ decimal 10 (4294967296 - port))

-- The number that a text of digits stands for, after the digits that make `acc`.
unfoldable pub digits_value : (acc : ℕ) → List ℕ → Option ℕ
digits_value acc [] = some acc
digits_value acc (d ∷ ds) =
    let rest = digits_value (acc * 10 + (d - 48)) ds in if leb 48 d && ltb d 58 then rest else none

digits_value-append :
    (acc n d : ℕ) (xs : List ℕ)
    → d < 10
    → digits_value acc xs ≡ some n
    → digits_value acc (xs ++ ((48 + d) ∷ [])) ≡ some (n * 10 + d)
unfolding digits_value
digits_value-append acc n d [] small e = ground (arith, e)
digits_value-append acc n d (x ∷ xs) small e = elim (Bool-cases (leb 48 x && ltb x 58)) [
  | inl digit ↦ rw digit (digits_value-append (acc * 10 + (x - 48)) n d xs small (rw digit at e))
  | inr other ↦ absurd (ground (arith, rw other at e))
]

decimal-small : (f n : ℕ) → n < 10 → decimal (suc f) n ≡ (48 + n) ∷ []
unfolding decimal
decimal-small f n small = ground arith

decimal-large :
    (f n : ℕ) → ltb n 10 ≡ false → decimal (suc f) n ≡ decimal f (n / 10) ++ ((48 + n % 10) ∷ [])
unfolding decimal
decimal-large f n large = rw large refl

digit_value : (n : ℕ) → n < 10 → digits_value 0 ((48 + n) ∷ []) ≡ some n
unfolding digits_value
digit_value n small = ground arith

-- A number of at most `suc k` digits is printed in that many.
decimal_lem :
    (k f n : ℕ)
    → k ≤ f
    → n < 10 ^ suc k
    → (digits_value 0 (decimal (suc f) n) ≡ some n) × (length (decimal (suc f) n) ≤ suc k)
decimal_lem zero f n enough small =
    let shown = decimal-small f n small in (rw shown (digit_value n small), rw shown (omega arith))
decimal_lem (suc k) zero n enough small = absurd (omega arith)
decimal_lem (suc k) (suc f) n enough small = elim (Bool-cases (ltb n 10)) [
  | inl one ↦
      let shown = decimal-small (suc f) n (ground arith) in
      (rw shown (digit_value n (ground arith)), rw shown (omega arith))
  | inr large ↦
      let tenth : n / 10 < 10 ^ suc k = omega (arith, pow-succ' 10 (suc k)) in
      let (value, short) = decimal_lem k f (n / 10) (omega arith) tenth in
      let shown = decimal-large (suc f) n large in
      let last : n % 10 < 10 = omega arith in
      let whole : (n / 10) * 10 + n % 10 ≡ n = omega arith in
      (
        rw shown (digits_value-append 0 (n / 10) (n % 10) _ last value ∙ ap some whole),
        rw (shown, length-append (decimal (suc f) (n / 10)) ((48 + n % 10) ∷ []))
            (omega (arith, short)),
      )
]

-- A port below 100000 is printed in full.
pub port_str_lem :
    (port : ℕ)
    → port < 100000
    → (digits_value 0 (port_str port) ≡ some port) × (length (port_str port) ≤ 5)
unfolding port_str
port_str_lem port small =
    let (value, short) = decimal_lem 4 9 port (omega arith) small in
    let positive : ltb port 2147483648 ≡ true = ground arith in
    let full = take_past 5 (decimal 10 port) short in
    (rw (positive, full) value, rw (positive, full) short)
