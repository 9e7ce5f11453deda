-- ===== src/Fs/Contents.antt =====
-- fisopfs/fisopfs.c: what `read` and `write` do to the contents of one file.
use mathlib.Core.Path.{ap₂}
use sistemas_operativos_1c.Base.{
  take-append, drop-append, done, ℕ, zero, suc, ◌+◌, ◌-◌, ◌%◌, ◌^◌, ◌≤◌, ◌<◌, ◌≡◌, refl, sym, ap,
  ◌∙◌, inl, inr, List, [], ◌∷◌, ◌++◌, true, false, Bool-cases, if◌then◌else◌, ltb, leb, le→leb,
  ltb→lt, length, length-append, length-take, length-drop, take, drop, arith, Array,
}
use sistemas_operativos_1c.Fs.Inode.{Meta}
use sistemas_operativos_1c.Fs.Handlers.{basura_desde, realloc, copiar_en, copiar, escribir, leer}

length-basura_desde : (basura : Array ℕ) (n i : ℕ) → length (basura_desde basura n i) ≡ n
unfolding basura_desde
length-basura_desde basura zero i = refl
length-basura_desde basura (suc n) i = ap suc (length-basura_desde basura n (i + 1))

length-realloc :
    (basura : Array ℕ) (c : List ℕ) (n : ℕ) → length c ≤ n → length (realloc basura c n) ≡ n
unfolding realloc
length-realloc basura c n h = omega (
  arith,
  length-append (take n c) (basura_desde basura (n - length c) (length c)),
  length-take n c,
  length-basura_desde basura (n - length c) (length c),
)

-- The buffer that `memcpy` writes into, and what it holds afterwards.
abbrev pub grown : Array ℕ → Meta → List ℕ → (new_size : ℕ) → List ℕ
grown basura m c new_size = if ltb m.tamano new_size then realloc basura c new_size else c

abbrev pub spliced : List ℕ → (offset : ℕ) → List ℕ → List ℕ
spliced g offset buf = take offset g ++ (buf ++ drop (offset + length buf) g)

abbrev pub size_after : Meta → (end : ℕ) → ℕ
size_after m end = if ltb m.tamano end then end else m.tamano

pub length-grown :
    (basura : Array ℕ) (m : Meta) (c : List ℕ) (n : ℕ)
    → length c ≡ m.tamano
    → length (grown basura m c n) ≡ size_after m n
length-grown basura m c n h = elim (Bool-cases (ltb m.tamano n)) [
  | inl more ↦ rw more (length-realloc basura c n (omega (arith, ltb→lt m.tamano n more)))
  | inr same ↦ rw same h
]

pub length-spliced :
    (g : List ℕ) (offset : ℕ) (buf : List ℕ)
    → offset + length buf ≤ length g
    → length (spliced g offset buf) ≡ length g
length-spliced g offset buf h = omega (
  arith,
  length-append (take offset g) (buf ++ drop (offset + length buf) g),
  length-append buf (drop (offset + length buf) g),
  length-take offset g,
  length-drop (offset + length buf) g,
)

-- A write to a file whose buffer has the size that it states, with an end below 2^64, succeeds.
pub escribir_lem :
    (basura : Array ℕ) (now : ℕ) (m : Meta) (c buf : List ℕ) (offset : ℕ)
    → length c ≡ m.tamano
    → offset + length buf < 2 ^ 64
    → escribir basura now m c buf offset
      ≡ done (
        record m {
          tamano = size_after m (offset + length buf);
          modificacion = now;
          cambio_estado = now;
        },
        spliced (grown basura m c (offset + length buf)) offset buf,
      )
unfolding escribir copiar_en
escribir_lem basura now m c buf offset h low =
    let plain : (offset + length buf) % 2 ^ 64 ≡ offset + length buf = omega arith in
    let fits : leb (offset + length buf) (length (grown basura m c (offset + length buf))) ≡ true =
      le→leb _ _ (ground (arith, length-grown basura m c (offset + length buf) h)) in
    rw (plain, fits)

take-drop-spliced :
    (g : List ℕ) (offset : ℕ) (buf : List ℕ)
    → offset + length buf ≤ length g
    → take (length buf) (drop offset (spliced g offset buf)) ≡ buf
take-drop-spliced g offset buf h =
    ap (take (length buf)) (
      drop-append (take offset g) (buf ++ drop (offset + length buf) g) offset
        (omega (arith, length-take offset g)))
    ∙ take-append buf (drop (offset + length buf) g) (length buf) refl

no_bytes : (xs : List ℕ) → length xs ≡ 0 → [] ≡ xs
no_bytes [] h = refl
no_bytes (x ∷ xs) h = absurd (omega arith)

-- `take` and `drop` past the end, and over a part that is kept.
take_past : (n : ℕ) (xs : List ℕ) → length xs ≤ n → take n xs ≡ xs
take_past zero xs h = no_bytes xs (omega arith)
take_past (suc n) [] h = refl
take_past (suc n) (x ∷ xs) h = ap (◌∷◌ x) (take_past n xs (omega arith))

drop_past : (n : ℕ) (xs : List ℕ) → length xs ≤ n → drop n xs ≡ []
drop_past zero xs h = sym (no_bytes xs (omega arith))
drop_past (suc n) [] h = refl
drop_past (suc n) (x ∷ xs) h = drop_past n xs (omega arith)

take-append_left : (n : ℕ) (xs ys : List ℕ) → n ≤ length xs → take n (xs ++ ys) ≡ take n xs
take-append_left zero xs ys h = refl
take-append_left (suc n) [] ys h = absurd (omega arith)
take-append_left (suc n) (x ∷ xs) ys h = ap (◌∷◌ x) (take-append_left n xs ys (omega arith))

kept_prefix :
    (basura : Array ℕ) (c : List ℕ) (n k : ℕ)
    → k ≤ length c
    → length c ≤ n
    → take k (realloc basura c n) ≡ take k c
unfolding realloc
kept_prefix basura c n k low high =
    ap (λ xs. take k (xs ++ basura_desde basura (n - length c) (length c))) (take_past n c high)
    ∙ take-append_left k c (basura_desde basura (n - length c) (length c)) low

-- A write that runs past the old end overwrites all that is new in the buffer.
spliced-realloc :
    (basura : Array ℕ) (c buf : List ℕ) (offset : ℕ)
    → offset ≤ length c
    → length c ≤ offset + length buf
    → spliced (realloc basura c (offset + length buf)) offset buf ≡ spliced c offset buf
spliced-realloc basura c buf offset low high =
    let size = length-realloc basura c (offset + length buf) high in
    ap₂ (λ xs ys. xs ++ (buf ++ ys)) kept
      (drop_past (offset + length buf) (realloc basura c (offset + length buf))
          (omega (arith, size))
        ∙ sym (drop_past (offset + length buf) c high))
  where
    kept : take offset (realloc basura c (offset + length buf)) ≡ take offset c
    kept = kept_prefix basura c (offset + length buf) offset low high

-- Reading back the range that was written returns the bytes that were written.
pub leer-spliced :
    (m : Meta) (g : List ℕ) (offset : ℕ) (buf : List ℕ)
    → length g ≡ m.tamano
    → offset + length buf ≤ m.tamano
    → m.tamano < 2 ^ 64
    → leer m (spliced g offset buf) (length buf) offset ≡ done buf
unfolding leer copiar
leer-spliced m g offset buf h low small = elim (Bool-cases (ltb offset m.tamano)) [
  | inl inside ↦
      let plain : (offset + length buf) % 2 ^ 64 ≡ offset + length buf = omega arith in
      let within : ltb m.tamano (offset + length buf) ≡ false = ground arith in
      let fits : leb (offset + length buf) (length (spliced g offset buf)) ≡ true =
        le→leb _ _ (omega (arith, length-spliced g offset buf (omega arith))) in
      rw (inside, plain, within, fits) (ap done (take-drop-spliced g offset buf (omega arith)))
  | inr outside ↦ rw outside (ap done (no_bytes buf (ground arith)))
]

-- A file's buffer has the size that its inode states, and that size is a `size_t`.
pub record IsFile (m : Meta) (c : List ℕ) : Type 0 where
  pub buffer : length c ≡ m.tamano
  pub bounded : m.tamano < 2 ^ 64

-- The contents of a file after a write that starts within it or at its end, as a plain list.
pub spliced_inside :
    (basura : Array ℕ) (m : Meta) (c buf : List ℕ) (offset : ℕ)
    → length c ≡ m.tamano
    → offset ≤ m.tamano
    → spliced (grown basura m c (offset + length buf)) offset buf
      ≡ take offset c ++ (buf ++ drop (offset + length buf) c)
spliced_inside basura m c buf offset h low =
    elim (Bool-cases (ltb m.tamano (offset + length buf))) [
      | inl more ↦ rw more (
          spliced-realloc basura c buf offset (omega arith)
            (omega (arith, ltb→lt m.tamano (offset + length buf) more)))
      | inr same ↦ rw same
    ]
