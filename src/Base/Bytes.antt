-- ===== src/Base/Bytes.antt =====
-- Lengths in bytes of texts, which are code points here, and cuts at a number of bytes.
use Prim.Native.Nat.{ℕ, ◌+◌, ◌-◌}
use mathlib.Core.List.{[], ◌∷◌, ◌++◌}
use ccc_fork.Base.Tests.{ltb, leb, if◌then◌else◌}
use ccc_fork.Base.Lists.{replicate}
use ccc_fork.Base.Texts.{Text, codes}

-- The length in bytes that `len` and `Builder.Len` give.
abbrev char_bytes : ℕ → ℕ
char_bytes c = if ltb c 0x80 then 1 else if ltb c 0x800 then 2 else if ltb c 0x10000 then 3 else 4

unfoldable pub byte_length : Text → ℕ
byte_length [] = 0
byte_length (c ∷ s) = char_bytes c + byte_length s

-- `s[:n]` of a string of more bytes. Of a character that the cut divides, each byte that is left stands as U+FFFD.
unfoldable pub cut_bytes : ℕ → Text → Text
unfolding replicate
cut_bytes n [] = []
cut_bytes n (c ∷ s) =
    let rest = cut_bytes (n - char_bytes c) s in
    if leb (char_bytes c) n then c ∷ rest else replicate n 0xfffd

unfoldable pub truncate : Text → ℕ → Text
unfolding byte_length cut_bytes
truncate s n = if leb (byte_length s) n then s else cut_bytes n s ++ codes "..."
