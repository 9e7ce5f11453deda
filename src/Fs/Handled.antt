-- ===== src/Fs/Handled.antt =====
-- fisopfs/fisopfs.c: sound trees under the handlers that write to one node.
use sistemas_operativos_1c.Base.{
  ℕ, ◌+◌, ◌-◌, ◌%◌, ◌^◌, ◌<◌, ◌≡◌, refl, sym, ◌∙◌, inl, inr, List, [], Bool, true, false, Option,
  none, some, Run, done, fault, exhausted, then_do, if◌then◌else◌, leb, leb→le, ◌==◌, ==_iff,
  length, length-append, length-take, length-replicate, take, replicate, arith, Array, Bool-cases,
}
use sistemas_operativos_1c.Fs.Inode.{Name, Meta, Inode, archivo, directorio}
use sistemas_operativos_1c.Fs.Tree.{Found}
use sistemas_operativos_1c.Fs.Ops.{System, Answer, Errno, escribir_nodo}
use sistemas_operativos_1c.Fs.Handlers.{
  fail, save_and_return, con_acceso, leer, read_found, copiar_en, escribir, write_found, may_open,
  bit, vaciar, open_found, recortar, truncate_found, con_tiempos, utimens_found,
}
use sistemas_operativos_1c.Fs.Contents.{IsFile, grown, size_after, length-grown, length-spliced}
use sistemas_operativos_1c.Fs.Sound.{
  Sound, SoundRoot, SoundFound, Keeps, escribir_nodo-Sound, guardar_fs-Keeps,
}

abbrev FileKept : Run (Meta × List ℕ) → Type 0
FileKept (done (m, c)) = IsFile m c
FileKept fault = Unit {0}
FileKept exhausted = Unit {0}

copied_back :
    (m' : Meta) (g : List ℕ) (offset : ℕ) (buf : List ℕ)
    → IsFile m' g
    → FileKept (then_do (copiar_en g offset buf) (λ c. done (m', c)))
unfolding copiar_en
copied_back m' g offset buf h = elim (Bool-cases (leb (offset + length buf) (length g))) [
  | inl fits ↦ rw fits (record {
    buffer = length-spliced g offset buf (leb→le _ _ fits) ∙ h.buffer;
    bounded = h.bounded;
  })
  | inr outside ↦ rw outside tt
]

-- A write to one file, also where it fails or the end wraps around.
escribir-FileKept :
    (basura : Array ℕ) (now : ℕ) (m : Meta) (c buf : List ℕ) (offset : ℕ)
    → IsFile m c
    → FileKept (escribir basura now m c buf offset)
unfolding escribir
escribir-FileKept basura now m c buf offset h =
    copied_back (record m { tamano = size_after m end; modificacion = now; cambio_estado = now })
      (grown basura m c end) offset buf
      (record {
        buffer = length-grown basura m c end h.buffer;
        bounded = ground (arith, h.bounded);
      })
  where
    end : ℕ
    end = (offset + length buf) % 2 ^ 64

length-recortar :
    (c : List ℕ) (tamano size : ℕ) → length c ≡ tamano → length (recortar c tamano size) ≡ size
unfolding recortar
length-recortar c tamano size h = elim (Bool-cases (size == 0)) [
  | inl zero_size ↦ rw zero_size (sym ((==_iff size 0).0 zero_size))
  | inr other ↦ rw other (
      omega (
        arith,
        length-append (take size c) (replicate (size - tamano) 0),
        length-take size c,
        length-replicate {A = ℕ} (size - tamano) 0,
      ))
]

pub save_and_return-Keeps : (s : System) (n : ℕ) → SoundRoot s.raiz → Keeps (save_and_return s n)
save_and_return-Keeps s n h = guardar_fs-Keeps s _ h (λ s' sound. sound)

-- Replacing a file by a sound one, and saving.
replaced-Keeps :
    (s : System) (p : List Name) (m : Meta) (c : List ℕ) (n : ℕ)
    → IsFile m c
    → SoundRoot s.raiz
    → Keeps (save_and_return (escribir_nodo s p (λ _. archivo m c)) n)
unfolding Sound
replaced-Keeps s p m c n file h =
    save_and_return-Keeps (escribir_nodo s p (λ _. archivo m c)) n
      (escribir_nodo-Sound s p (λ _. archivo m c) (λ x _. file) h)

pub write_found-Keeps :
    (basura : Array ℕ) (s : System) (buf : List ℕ) (offset : ℕ) (o : Option Found)
    → SoundFound o
    → SoundRoot s.raiz
    → Keeps (write_found basura s buf offset o)
unfolding Sound
write_found-Keeps basura s buf offset none found h = h
write_found-Keeps basura s buf offset (some (p, directorio m hs)) found h = h
write_found-Keeps basura s buf offset (some (p, archivo m c)) found h =
    go (escribir basura s.now m c buf offset) (escribir-FileKept basura s.now m c buf offset found)
  where
    go :
        (r : Run (Meta × List ℕ))
        → FileKept r
        → Keeps (
            then_do r
              (λ (m', c'). save_and_return (escribir_nodo s p (λ _. archivo m' c')) (length buf)))
    go (done (m', c')) file = replaced-Keeps s p m' c' (length buf) file h
    go fault file = tt
    go exhausted file = tt

pub read_found-Keeps :
    (s : System) (size offset : ℕ) (o : Option Found)
    → SoundRoot s.raiz
    → Keeps (read_found s size offset o)
unfolding Sound
read_found-Keeps s size offset none h = h
read_found-Keeps s size offset (some (p, directorio m hs)) h = h
read_found-Keeps s size offset (some (p, archivo m c)) h = go (leer m c size offset)
  where
    touched : (x : Inode) → Sound x → Sound (con_acceso s.now x)
    touched (archivo m c) sound = record { buffer = sound.buffer; bounded = sound.bounded }
    touched (directorio m hs) sound = sound

    go :
        (r : Run (List ℕ))
        → Keeps (then_do r (λ read. done (escribir_nodo s p (con_acceso s.now), Answer.bytes read)))
    go (done read) = escribir_nodo-Sound s p (con_acceso s.now) touched h
    go fault = tt
    go exhausted = tt

pub open_found-Keeps :
    (s : System) (flags : ℕ) (o : Option Found) → SoundRoot s.raiz → Keeps (open_found s flags o)
unfolding vaciar
open_found-Keeps s flags none h = h
open_found-Keeps s flags (some (p, directorio m hs)) h = h
open_found-Keeps s flags (some (p, archivo m c)) h = choose (may_open m flags) (bit flags 9)
  where
    emptied : Keeps (save_and_return (escribir_nodo s p (λ _. vaciar s.now m)) 0)
    emptied =
        replaced-Keeps s p (record m { tamano = 0; modificacion = s.now; cambio_estado = s.now }) []
          0 (record { buffer = refl; bounded = omega arith }) h

    choose :
        (allowed cut : Bool)
        → Keeps (
            if allowed
            then (if cut
                then save_and_return (escribir_nodo s p (λ _. vaciar s.now m)) 0
                else done (s, Answer.value 0))
            else fail s Errno.eacces)
    choose true true = emptied
    choose true false = h
    choose false cut = h

pub truncate_found-Keeps :
    (s : System) (size : ℕ) (o : Option Found)
    → size < 2 ^ 64
    → SoundFound o
    → SoundRoot s.raiz
    → Keeps (truncate_found s size o)
unfolding Sound
truncate_found-Keeps s size none low found h = h
truncate_found-Keeps s size (some (p, directorio m hs)) low found h = h
truncate_found-Keeps s size (some (p, archivo m c)) low found h =
    replaced-Keeps s p (record m { tamano = size; modificacion = s.now; cambio_estado = s.now })
      (recortar c m.tamano size) 0
      (record { buffer = length-recortar c m.tamano size found.buffer; bounded = low }) h

pub utimens_found-Keeps :
    (s : System) (acceso modificacion : ℕ) (o : Option Found)
    → SoundRoot s.raiz
    → Keeps (utimens_found s acceso modificacion o)
unfolding Sound
utimens_found-Keeps s acceso modificacion none h = h
utimens_found-Keeps s acceso modificacion (some (p, n)) h =
    save_and_return-Keeps (escribir_nodo s p (con_tiempos acceso modificacion s.now)) 0
      (escribir_nodo-Sound s p (con_tiempos acceso modificacion s.now) stamped h)
  where
    stamped : (x : Inode) → Sound x → Sound (con_tiempos acceso modificacion s.now x)
    stamped (archivo m c) sound = record { buffer = sound.buffer; bounded = sound.bounded }
    stamped (directorio m hs) sound = sound
