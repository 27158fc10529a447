-- ===== src/F2b/Numbers.antt =====
-- The numbers that internal/f2b/pickle.go reads: decodeLongLE is two's complement, and a length near 2^63
-- escapes the check of read.
use logfort.Prelude.{
  ℕ, ◌+◌, ◌-◌, ◌*◌, ◌%◌, ◌^◌, ◌≤◌, ◌<◌, ◌≡◌, refl, sym, ap, ◌∙◌, inl, inr, Bool, ◌&&◌, [], ◌∷◌,
  ◌++◌, arith, ltb, leb, if◌then◌else◌, Bool-cases, length, take, drop, length-append, All, ℤ, pos,
  sub_ℕ,
}
use logfort.F2b.Value.{Text}
use logfort.F2b.Machine.{
  Unpickler, ok, panic, M, ◌>>=◌, read, read_sized, little_endian, signed, shift_in, decode_long_le,
  last_byte,
}
use logfort.F2b.ReadBack.{bind-ok, take-append}
use logfort.F2b.Actions.{Runtime}
use logfort.F2b.Step.{step}
use logfort.F2b.Unpickle.{panicked, advanced, step_byte, start, unpickle, continue}

abbrev Byte : ℕ → Type 0
Byte b = b < 256

-- 256 to the number of bytes.
abbrev pub radix : Text → ℕ
radix [] = 1
radix (b ∷ bs) = 256 * radix bs

little_endian-lt-radix : (bs : Text) → All (λ b. b < 256) bs → little_endian bs < radix bs
unfolding little_endian
little_endian-lt-radix [] h = omega arith
little_endian-lt-radix (b ∷ bs) (h, hs) = omega (arith, little_endian-lt-radix bs hs)

shift_in-little_endian :
    (bs : Text) → All (λ b. b < 256) bs → radix bs ≤ 2 ^ 64 → shift_in bs ≡ little_endian bs
unfolding shift_in little_endian
shift_in-little_endian [] h k = refl
shift_in-little_endian (b ∷ bs) (h, hs) k =
    let low = little_endian-lt-radix bs hs in
    omega (arith, shift_in-little_endian bs hs (omega arith))

radix-cases :
    (bs : Text)
    → length bs ≤ 8
    → (2 ^ (8 * length bs) ≡ radix bs) × (radix bs ≤ 2 ^ 64) × (length bs ≡ 8 → radix bs ≡ 2 ^ 64)
radix-cases [] h = (refl, omega arith, λ e. absurd (omega arith))
radix-cases (_ ∷ []) h = (refl, omega arith, λ e. absurd (omega arith))
radix-cases (_ ∷ _ ∷ []) h = (refl, omega arith, λ e. absurd (omega arith))
radix-cases (_ ∷ _ ∷ _ ∷ []) h = (refl, omega arith, λ e. absurd (omega arith))
radix-cases (_ ∷ _ ∷ _ ∷ _ ∷ []) h = (refl, omega arith, λ e. absurd (omega arith))
radix-cases (_ ∷ _ ∷ _ ∷ _ ∷ _ ∷ []) h = (refl, omega arith, λ e. absurd (omega arith))
radix-cases (_ ∷ _ ∷ _ ∷ _ ∷ _ ∷ _ ∷ []) h = (refl, omega arith, λ e. absurd (omega arith))
radix-cases (_ ∷ _ ∷ _ ∷ _ ∷ _ ∷ _ ∷ _ ∷ []) h = (refl, omega arith, λ e. absurd (omega arith))
radix-cases (_ ∷ _ ∷ _ ∷ _ ∷ _ ∷ _ ∷ _ ∷ _ ∷ []) h = (refl, omega arith, λ e. refl)
radix-cases (_ ∷ _ ∷ _ ∷ _ ∷ _ ∷ _ ∷ _ ∷ _ ∷ b ∷ bs) h = absurd (omega arith)

leb-scale :
    (b x y : ℕ) → b < 256 → leb (256 * x) (2 * y) ≡ leb (256 * (256 * x)) (2 * (b + 256 * y))
leb-scale b x y h = ground arith

-- The top bit of the last byte is the number's sign.
sign-last_byte :
    (b : ℕ) (bs : Text)
    → All (λ b. b < 256) (b ∷ bs)
    → leb 0x80 (last_byte (b ∷ bs) % 256) ≡ leb (radix (b ∷ bs)) (2 * little_endian (b ∷ bs))
unfolding little_endian
sign-last_byte b [] (h, hs) = ground arith
sign-last_byte b (c ∷ cs) (h, hs) =
    sign-last_byte c cs hs ∙ leb-scale b (radix cs) (c + 256 * little_endian cs) h

-- The two's complement number of these bytes, the lowest first.
abbrev pub twos_complement : Text → ℤ
twos_complement bs =
    if leb (radix bs) (2 * little_endian bs)
    then sub_ℕ (little_endian bs) (radix bs)
    else pos (little_endian bs)

-- The last test of decodeLongLE, of a number n below p.
decode-of_parts :
    (n p l : ℕ) (s : Bool)
    → s ≡ leb p (2 * n)
    → p ≤ 2 ^ 64
    → l ≤ 8
    → (l ≡ 8 → p ≡ 2 ^ 64)
    → (if s && ltb l 8 then sub_ℕ n p else signed 64 n)
      ≡ (if leb p (2 * n) then sub_ℕ n p else pos n)
decode-of_parts n p l s e h k top = elim (Bool-cases (ltb l 8)) [
  | inl lt ↦ ground arith
  | inr ge ↦ let at : l ≡ 8 = ground arith in let q = top at in ground (arith, q)
]

-- Of at most eight bytes decodeLongLE gives the two's complement number.
pub decode_long_le_lem :
    (bs : Text) → All (λ b. b < 256) bs → length bs ≤ 8 → decode_long_le bs ≡ twos_complement bs
unfolding decode_long_le little_endian
decode_long_le_lem [] h k = refl
decode_long_le_lem (b ∷ bs) h k =
    let (p, h64, top) = radix-cases (b ∷ bs) k in
    ap
      (λ n.
        if leb 0x80 (last_byte (b ∷ bs) % 256) && ltb (length (b ∷ bs)) 8
        then sub_ℕ n (2 ^ (8 * length (b ∷ bs)))
        else signed 64 n)
      (shift_in-little_endian (b ∷ bs) h h64)
    ∙ ap
        (λ q.
          if leb 0x80 (last_byte (b ∷ bs) % 256) && ltb (length (b ∷ bs)) 8
          then sub_ℕ (little_endian (b ∷ bs)) q
          else signed 64 (little_endian (b ∷ bs)))
        p
    ∙ decode-of_parts (little_endian (b ∷ bs)) (radix (b ∷ bs)) (length (b ∷ bs)) _
        (sign-last_byte b bs h) h64 k top

read-ok :
    (n : ℕ) (u : Unpickler)
    → u.pos + n < 2 ^ 63
    → u.pos + n ≤ length u.data_bytes
    → read (pos n) u ≡ ok (take n (drop u.pos u.data_bytes)) (record u { pos = u.pos + n })
unfolding read
read-ok n u h k = ground arith

read-panic : (n : ℕ) (u : Unpickler) → 2 ^ 63 ≤ u.pos + n → read (pos n) u ≡ panic
unfolding read
read-panic n u h = ground arith

bind-panic :
    {A B : Type 0} (m : M A) (f : A → M B) (u : Unpickler) → m u ≡ panic → (m >>= f) u ≡ panic
bind-panic m f u e = rw (e, ◌>>=◌) refl

signed-pos : (n : ℕ) → n < 2 ^ 63 → signed 64 n ≡ pos n
signed-pos n h = ground arith

-- A length that reaches past 2^63 makes the second read panic.
read_sized-panic :
    (bs rest : Text) (u : Unpickler)
    → length bs ≡ 8
    → drop u.pos u.data_bytes ≡ bs ++ rest
    → u.pos + 8 < 2 ^ 63
    → u.pos + 8 ≤ length u.data_bytes
    → 2 ^ 63 ≤ u.pos + 8 + little_endian bs
    → little_endian bs < 2 ^ 63
    → read_sized 8 u ≡ panic
unfolding read_sized
read_sized-panic bs rest u e d a b c n =
    let v : Unpickler = record u { pos = u.pos + 8 } in
    let got : take 8 (drop u.pos u.data_bytes) ≡ bs =
      ap (take 8) d ∙ ap (λ k. take k (bs ++ rest)) (sym e) ∙ take-append bs rest in
    bind-ok (read (pos 8)) _ u v (read-ok 8 u a b)
    ∙ ap (λ s. read (signed 64 (little_endian s)) v) got
    ∙ ap (λ k. read k v) (signed-pos (little_endian bs) n)
    ∙ read-panic (little_endian bs) v c

-- A stream that begins with BINUNICODE8 and a length that is an int64 and at most nine below its end makes
-- unpickle panic, whatever follows: the sum of position and length wraps round.
pub unpickle_overflow :
    (rt : Runtime) (bs rest : Text)
    → length bs ≡ 8
    → 2 ^ 63 - 9 ≤ little_endian bs
    → little_endian bs < 2 ^ 63
    → unpickle rt (0x8d ∷ (bs ++ rest)) ≡ panicked
unfolding unpickle step_byte step
unpickle_overflow rt bs rest e lo hi =
    let u = advanced (start (0x8d ∷ (bs ++ rest))) in
    let fits = length-append bs rest in
    ap (continue _) (
      bind-panic (read_sized 8) _ u
        (read_sized-panic bs rest u e refl (omega arith) (omega (arith, fits, e)) (omega arith) hi))
