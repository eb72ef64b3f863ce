-- ===== src/Stdio/Tests.antt =====
-- src/stdio.c: a line in a block that is too small for it.
use libsolcompat.Common.{ℕ, refl, some, List, [], ◌∷◌, arith}
use libsolcompat.Stdio.{Line, getdelim}
use libsolcompat.Stdio.Delimiter.{IsRead, willing, getdelim-IsRead}

-- A block of one byte.
abbrev one_byte : Line
one_byte = record { block = some (0 ∷ []); n = 1 }

-- "ab;c" with ";" as the delimiter.
abbrev text : List ℕ
text = b'a' ∷ b'b' ∷ b';' ∷ b'c' ∷ []

getdelim-IsRead_example :
    IsRead (b'a' ∷ b'b' ∷ b';' ∷ []) (b'c' ∷ []) (getdelim b';' (willing 7) text one_byte)
getdelim-IsRead_example = getdelim-IsRead b';' 7 text one_byte refl (omega arith) (omega arith)
