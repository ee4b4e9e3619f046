-- ===== src/Base/Text.antt =====
-- Rust's `str`, as its list of characters; `len` counts the bytes of its UTF-8 form.
use Prim.Native.Nat.{ℕ, ◌+◌}
use Prim.Native.Char.{code}
use Prim.Native.String.{String}
use mathlib.Core.Path.{◌≡◌, refl}
use mathlib.Core.Bool.{Bool, true, false, ◌&&◌}
use mathlib.Core.List.{List, [], ◌∷◌, ◌++◌}
use native.Mathlib.Omega.{arith}
use vivado_server.Base.Tests.{ltb, ◌==◌, if◌then◌else◌}

abbrev pub Str : Type 0
Str = List ℕ

-- The characters of a literal.
abbrev pub codes : String → Str
codes String.[] = []
codes (String.◌∷◌ first rest) = code first ∷ codes rest

-- `char::len_utf8`
abbrev pub len_utf8 : ℕ → ℕ
len_utf8 c = if ltb c 0x80 then 1 else if ltb c 0x800 then 2 else if ltb c 0x10000 then 3 else 4

-- `str::len`
abbrev pub len : Str → ℕ
len [] = 0
len (c ∷ s) = len_utf8 c + len s

pub len-append : (s t : Str) → len (s ++ t) ≡ len s + len t
len-append [] t = omega arith
len-append (c ∷ s) t = omega (arith, len-append s t)

infix 50 ◌=s=◌
unfoldable pub ◌=s=◌ : Str → Str → Bool
[] =s= [] = true
[] =s= (d ∷ t) = false
(c ∷ s) =s= [] = false
(c ∷ s) =s= (d ∷ t) = c == d && s =s= t

pub =s=_eq : (s t : Str) → (s =s= t) ≡ true → s ≡ t
unfolding ◌=s=◌
=s=_eq [] [] h = refl
=s=_eq [] (d ∷ t) h = ground arith
=s=_eq (c ∷ s) [] h = ground arith
=s=_eq (c ∷ s) (d ∷ t) h = ground (arith, =s=_eq s t)

pub =s=_self : (s : Str) → (s =s= s) ≡ true
unfolding ◌=s=◌
=s=_self [] = refl
=s=_self (c ∷ s) = ground (arith, =s=_self s)

pub =s=_sym : (s t : Str) → (s =s= t) ≡ (t =s= s)
unfolding ◌=s=◌
=s=_sym [] [] = refl
=s=_sym [] (d ∷ t) = refl
=s=_sym (c ∷ s) [] = refl
=s=_sym (c ∷ s) (d ∷ t) = ground (arith, =s=_sym s t)
