-- ===== src/Base64/Pton.antt =====
-- `f_b64_pton`: text to bytes. The list is the text up to its NUL; a zero in it ends it too.
use bw_watermyplants.Common.{
  ℕ, zero, suc, ◌+◌, ◌*◌, ◌/◌, ◌^◌, List, [], ◌∷◌, Option, none, some, Bool, true, ◌&&◌,
  if◌then◌else◌, leb, ◌==◌, ◌!=◌, bit_and, bit_or, u8, u32,
}
use bw_watermyplants.Common.Int.{ℤ, signed32}
use bw_watermyplants.Base64.{pad64, position, isspace}

-- `state`
pub data Phase : Type 0 where
  phase0 phase1 phase2 phase3 : Phase

-- The variables of the loop; `target` is the memory at the pointer, `none` where it is NULL.
pub record Cursor : Type 0 where
  pub state : Phase
  pub tarindex : ℕ
  pub target : Option (List ℕ)

-- `return (-1);`, a result, or an access outside the memory of the target.
pub data Converted (A : Type 0) : Type 0 where
  failed : Converted A
  converted : A → Converted A
  overrun : Converted A

infixl 5 ◌>>=◌
abbrev pub ◌>>=◌ : {A B : Type 0} → Converted A → (A → Converted B) → Converted B
failed >>= f = failed
converted a >>= f = f a
overrun >>= f = overrun

-- `memory[i] = v` and `memory[i] |= v`
unfoldable pub assign : List ℕ → ℕ → ℕ → Converted (List ℕ)
assign [] i v = overrun
assign (x ∷ xs) zero v = converted (u8 v ∷ xs)
assign (x ∷ xs) (suc i) v = assign xs i v >>= λ r. converted (x ∷ r)

unfoldable pub or_into : List ℕ → ℕ → ℕ → Converted (List ℕ)
or_into [] i v = overrun
or_into (x ∷ xs) zero v = converted (u8 (bit_or x v) ∷ xs)
or_into (x ∷ xs) (suc i) v = or_into xs i v >>= λ r. converted (x ∷ r)

-- `if (tarindex >= targsize) return (-1);`
abbrev pub check : ℕ → ℕ → List ℕ → Converted (List ℕ)
check i targsize memory = if leb targsize i then failed else converted memory

-- What each state writes of the six bits `v`, where the target is not NULL.
unfoldable pub store : Phase → ℕ → ℕ → ℕ → List ℕ → Converted (List ℕ)
unfolding assign or_into
store phase0 v i targsize memory = check i targsize memory >>= λ m. assign m i (v * 2 ^ 2)
store phase1 v i targsize memory =
    check (u32 (i + 1)) targsize memory >>= (λ m. or_into m i (v / 2 ^ 4)) >>= λ m.
    assign m (u32 (i + 1)) (bit_and v 0x0f * 2 ^ 4)
store phase2 v i targsize memory =
    check (u32 (i + 1)) targsize memory >>= (λ m. or_into m i (v / 2 ^ 2)) >>= λ m.
    assign m (u32 (i + 1)) (bit_and v 0x03 * 2 ^ 6)
store phase3 v i targsize memory = check i targsize memory >>= λ m. or_into m i v

abbrev pub store_if : Phase → ℕ → ℕ → ℕ → Option (List ℕ) → Converted (Option (List ℕ))
store_if p v i targsize none = converted none
store_if p v i targsize (some memory) = store p v i targsize memory >>= λ m. converted (some m)

abbrev pub next_phase : Phase → Phase
next_phase phase0 = phase1
next_phase phase1 = phase2
next_phase phase2 = phase3
next_phase phase3 = phase0

-- `tarindex++` in every state but the first
abbrev pub next_index : Phase → ℕ → ℕ
next_index phase0 i = i
next_index phase1 i = u32 (i + 1)
next_index phase2 i = u32 (i + 1)
next_index phase3 i = u32 (i + 1)

-- The `switch` on a character of the alphabet
unfoldable pub take_digit : ℕ → ℕ → Cursor → Converted Cursor
unfolding store
take_digit v targsize c = store_if c.state v c.tarindex targsize c.target >>= λ t.
    converted
      (record { state = next_phase c.state; tarindex = next_index c.state c.tarindex; target = t })

-- The end of the text: no partial byte may lie around.
unfoldable pub at_end : Cursor → Converted Cursor
at_end c = elim c.state [ phase0 ↦ converted c | _ ↦ failed ]

-- The first character from here on that is no space, with what follows it.
unfoldable pub past_spaces : List ℕ → List ℕ
past_spaces [] = []
past_spaces (ch ∷ src) = let rest = past_spaces src in if isspace ch then rest else ch ∷ src

-- Nothing but spaces up to the end
unfoldable pub only_spaces : List ℕ → Bool
only_spaces [] = true
only_spaces (ch ∷ src) = if ch == 0 then true else isspace ch && only_spaces src

unfoldable pub byte_in : List ℕ → ℕ → Option ℕ
byte_in [] i = none
byte_in (x ∷ xs) zero = some x
byte_in (x ∷ xs) (suc i) = byte_in xs i

-- `if (target && target[tarindex] != 0) return (-1);`
unfoldable pub no_extra_bits : Cursor → Converted Cursor
unfolding byte_in
no_extra_bits c = elim c.target [
  | none ↦ converted c
  | some memory ↦ elim (byte_in memory c.tarindex) [
    | none ↦ overrun
    | some b ↦ if b != 0 then failed else converted c
  ]
]

-- Behind the last `=`
unfoldable pub behind_pads : List ℕ → Cursor → Converted Cursor
unfolding only_spaces no_extra_bits
behind_pads src c = if only_spaces src then no_extra_bits c else failed

-- Another `=` must follow, after any spaces.
unfoldable pub second_pad : List ℕ → Cursor → Converted Cursor
unfolding behind_pads
second_pad [] c = failed
second_pad (ch ∷ src) c = if ch == pad64 then behind_pads src c else failed

-- Behind the first `=`
unfoldable pub at_pad : List ℕ → Cursor → Converted Cursor
unfolding second_pad past_spaces
at_pad src c = elim c.state [
  | phase0 ↦ failed
  | phase1 ↦ failed
  | phase2 ↦ second_pad (past_spaces src) c
  | phase3 ↦ behind_pads src c
]

-- `while ((ch = *src++) != '\0')`
unfoldable pub pton_loop : List ℕ → ℕ → Cursor → Converted Cursor
pton_loop [] targsize c = at_end c
pton_loop (ch ∷ src) targsize c =
    let rest = pton_loop src targsize in
    if ch == 0
    then at_end c
    else if isspace ch
    then rest c
    else if ch == pad64
    then at_pad src c
    else elim (position ch) [ none ↦ failed | some v ↦ (take_digit v targsize c >>= rest) ]

-- `f_b64_pton(src, target, targsize)`: the `int` it returns, and the target
unfoldable pub pton : List ℕ → Option (List ℕ) → ℕ → Converted (ℤ × Option (List ℕ))
pton src target targsize =
    pton_loop src targsize (record { state = phase0; tarindex = 0; target = target }) >>= λ c.
    converted (signed32 c.tarindex, c.target)
