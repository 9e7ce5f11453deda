-- ===== src/Kern/Console/Queue.antt =====
-- sched/kern/console.c: the buffer as a queue of characters.
use sistemas_operativos_1c.Base.{
  ℕ, zero, suc, ◌+◌, ◌%◌, ◌^◌, ◌<◌, ◌≡◌, ◌≢◌, refl, sym, ap, ◌∙◌, inl, inr, true, false, List, [],
  ◌∷◌, ◌++◌, append_assoc, append-nil, length, length-append, Array, update, update_self, update_ne,
  subst, arith, ◌==◌, if◌then◌else◌, Bool-cases,
}
use sistemas_operativos_1c.Kern.Console.{
  Cons, consbufsize, wrapped, store, cons_intr, take_unless, cons_getc,
}

-- The `n` characters from place `i` on, round the buffer.
abbrev pub stretch : Array ℕ → (i n : ℕ) → List ℕ
stretch buf i zero = []
stretch buf i (suc n) = buf i ∷ stretch buf (wrapped (i + 1)) n

-- The characters that wait to be read are `xs`.
pub record IsQueue (c : Cons) (xs : List ℕ) : Type 0 where
  pub start : c.rpos < consbufsize
  pub room : length xs < consbufsize
  pub stop : c.wpos ≡ (c.rpos + length xs) % consbufsize
  pub content : stretch c.buf c.rpos (length xs) ≡ xs

-- What a device sends that is kept: everything but 0.
abbrev pub kept : List ℕ → List ℕ
kept [] = []
kept (x ∷ xs) = if x == 0 then kept xs else x ∷ kept xs

abbrev pub Bytes : List ℕ → Type 0
Bytes [] = Unit {0}
Bytes (x ∷ xs) = (x < 256) × Bytes xs

wrapped-mod : (i : ℕ) → i < consbufsize → wrapped (i + 1) ≡ (i + 1) % consbufsize
wrapped-mod i h = ground arith

-- A write outside the stretch leaves it alone.
stretch-update :
    (buf : Array ℕ) (i n k x : ℕ)
    → i < consbufsize
    → n < consbufsize
    → k < consbufsize
    → (i + n) % consbufsize ≡ k
    → stretch (update buf k x) i n ≡ stretch buf i n
stretch-update buf i zero k x low short place at = refl
stretch-update buf i (suc n) k x low short place at =
    let differ : k ≢ i = λ same. omega arith in
    ap (λ (v : ℕ). v ∷ stretch (update buf k x) (wrapped (i + 1)) n) (update_ne buf k x i differ)
    ∙ ap (λ rest. buf i ∷ rest)
        (stretch-update buf (wrapped (i + 1)) n k x (ground arith) (omega arith) place
          (ground arith))

-- A stretch one longer ends with the character behind the shorter one.
stretch-suc :
    (buf : Array ℕ) (i n : ℕ)
    → i < consbufsize
    → stretch buf i (suc n) ≡ stretch buf i n ++ buf ((i + n) % consbufsize) ∷ []
stretch-suc buf i zero low = ap (λ (k : ℕ). buf k ∷ []) (omega arith)
stretch-suc buf i (suc n) low =
    let place : (wrapped (i + 1) + n) % consbufsize ≡ (i + suc n) % consbufsize = ground arith in
    ap (λ rest. buf i ∷ rest)
      (stretch-suc buf (wrapped (i + 1)) n (ground arith)
        ∙ ap (λ (k : ℕ). stretch buf (wrapped (i + 1)) n ++ buf k ∷ []) place)

length-snoc : (xs : List ℕ) (x : ℕ) → length (xs ++ x ∷ []) ≡ length xs + 1
length-snoc [] x = refl
length-snoc (y ∷ xs) x = omega (arith, length-snoc xs x)

store-IsQueue :
    (c : Cons) (xs : List ℕ) (x : ℕ)
    → IsQueue c xs
    → x < 256
    → length xs + 1 < consbufsize
    → IsQueue (store c x) (xs ++ x ∷ [])
store-IsQueue c xs x q byte more = record {
  start = q.start;
  room = omega (arith, length-snoc xs x);
  stop = ground (arith, length-snoc xs x, q.stop);
  content =
      ap (stretch written c.rpos) longer
      ∙ stretch-suc written c.rpos (length xs) q.start
      ∙ ap (λ ys. ys ++ written ((c.rpos + length xs) % consbufsize) ∷ []) (before ∙ q.content)
      ∙ ap (λ (v : ℕ). xs ++ v ∷ []) last;
}
  where
    written : Array ℕ
    written = update c.buf c.wpos (x % 2 ^ 8)

    longer : length (xs ++ x ∷ []) ≡ suc (length xs)
    longer = omega (arith, length-snoc xs x)

    before : stretch written c.rpos (length xs) ≡ stretch c.buf c.rpos (length xs)
    before =
        stretch-update c.buf c.rpos (length xs) c.wpos (x % 2 ^ 8) q.start q.room
          (omega (arith, q.stop)) (sym q.stop)

    last : written ((c.rpos + length xs) % consbufsize) ≡ x
    last = ap written (sym q.stop) ∙ update_self c.buf c.wpos (x % 2 ^ 8) ∙ omega arith

-- While there is room, the characters that a device sends, but for 0, are put behind those that wait.
pub cons_intr-IsQueue :
    (ys : List ℕ) (c : Cons) (xs : List ℕ)
    → IsQueue c xs
    → Bytes ys
    → length xs + length (kept ys) < consbufsize
    → IsQueue (cons_intr c ys) (xs ++ kept ys)
unfolding cons_intr
cons_intr-IsQueue [] c xs q bytes room = subst (IsQueue c) (sym (append-nil xs)) q
cons_intr-IsQueue (y ∷ ys) c xs q (byte, bytes) room = elim (Bool-cases (y == 0)) [
  | inl null ↦ rw null (cons_intr-IsQueue ys c xs q bytes (ground arith))
  | inr char ↦ rw char (
      subst (IsQueue (cons_intr (store c y) ys)) (append_assoc xs (y ∷ []) (kept ys)) (
        cons_intr-IsQueue ys (store c y) (xs ++ y ∷ []) (store-IsQueue c xs y q byte (ground arith))
          bytes (ground (arith, length-snoc xs y))))
]

-- What `cons_getc` returns, and leaves, when `xs` wait: the first of them, or 0 if there are none.
abbrev pub Takes : List ℕ → Cons × ℕ → Type 0
Takes [] (c, x) = (x ≡ 0) × IsQueue c []
Takes (y ∷ xs) (c, x) = (x ≡ y) × IsQueue c xs

take_unless-Takes :
    (c : Cons) (xs : List ℕ) → IsQueue c xs → Takes xs (take_unless c (c.rpos == c.wpos))
take_unless-Takes c [] q =
    let idle : (c.rpos == c.wpos) ≡ true = ground (arith, q.stop, q.start) in
    subst (λ b. Takes [] (take_unless c b)) (sym idle) (refl, q)
take_unless-Takes c (y ∷ xs) q =
    let busy : (c.rpos == c.wpos) ≡ false = ground (arith, q.stop, q.start, q.room) in
    let next : (c.rpos + 1) % 2 ^ 32 ≡ c.rpos + 1 = omega (arith, q.start) in
    let rest : stretch c.buf (wrapped (c.rpos + 1)) (length xs) ≡ xs = cc (q.content) in
    subst (λ b. Takes (y ∷ xs) (take_unless c b)) (sym busy)
      (
        cc (q.content),
        record {
          start = ground (arith, q.start);
          room = omega (arith, q.room);
          stop = ground (arith, q.stop, q.start, q.room);
          content = ap (λ (i : ℕ). stretch c.buf (wrapped i) (length xs)) next ∙ rest;
        },
      )

-- `cons_getc` polls the devices and then returns the characters in the order in which they came, each once,
-- and 0 when none waits; as long as fewer than CONSBUFSIZE wait none is lost.
pub cons_getc-Takes :
    (c : Cons) (xs serial keys : List ℕ)
    → IsQueue c xs
    → Bytes serial
    → Bytes keys
    → length xs + length (kept serial) + length (kept keys) < consbufsize
    → Takes ((xs ++ kept serial) ++ kept keys) (cons_getc c serial keys)
unfolding cons_getc
cons_getc-Takes c xs serial keys q bytes bytes' room =
    take_unless-Takes (cons_intr (cons_intr c serial) keys) ((xs ++ kept serial) ++ kept keys) (
      cons_intr-IsQueue keys (cons_intr c serial) (xs ++ kept serial)
        (cons_intr-IsQueue serial c xs q bytes (omega arith)) bytes'
        (omega (arith, length-append {0} xs (kept serial))))

-- The buffer after the character that fills it: it counts as empty, and what waited is lost.
pub store_overflow :
    (c : Cons) (xs : List ℕ) (x : ℕ)
    → IsQueue c xs
    → length xs + 1 ≡ consbufsize
    → IsQueue (store c x) []
store_overflow c xs x q full = record {
  start = q.start;
  room = omega arith;
  stop = ground (arith, q.stop, q.start);
  content = refl;
}
