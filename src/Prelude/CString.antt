-- ===== src/Prelude/CString.antt =====
-- C strings: a `char` array is the list of its bytes, and its text ends before the first zero.
use Prim.Native.Nat.{ℕ, ◌≤◌, ◌<◌}
use mathlib.Core.Path.{◌≡◌, refl}
use mathlib.Core.Bool.{Bool, true, false, ◌&&◌}
use mathlib.Core.List.{List, [], ◌∷◌, ◌++◌}
use native.Mathlib.Omega.{arith}
use esp_nmea_bridge.Prelude.Tests.{◌==◌, if◌then◌else◌}
use esp_nmea_bridge.Prelude.Lists.{length, All}

abbrev pub Bytes : Type 0
Bytes = List ℕ

-- The bytes before the first zero: the string that `char *` reads.
unfoldable pub cstr : Bytes → Bytes
cstr [] = []
cstr (c ∷ cs) = if c == 0 then [] else c ∷ cstr cs

-- `strlen`.
unfoldable pub strlen : Bytes → ℕ
strlen s = length (cstr s)

-- `memchr(s, '\0', sizeof(s)) != NULL`.
unfoldable pub terminated : Bytes → Bool
terminated [] = false
terminated (c ∷ cs) = if c == 0 then true else terminated cs

-- Equality of byte strings (`memcmp(..) == 0` at equal lengths).
unfoldable pub bytes_eq : Bytes → Bytes → Bool
bytes_eq [] [] = true
bytes_eq (a ∷ as') (b ∷ bs) = (a == b) && bytes_eq as' bs
bytes_eq _ _ = false

-- `strcmp(a, b) == 0`.
unfoldable pub str_equal : Bytes → Bytes → Bool
str_equal a b = bytes_eq (cstr a) (cstr b)

pub bytes_eq_sound : (a b : Bytes) → bytes_eq a b ≡ true → a ≡ b
unfolding bytes_eq
bytes_eq_sound [] [] h = refl
bytes_eq_sound [] (y ∷ b) h = cc
bytes_eq_sound (x ∷ a) [] h = cc
bytes_eq_sound (x ∷ a) (y ∷ b) h = ground (arith, bytes_eq_sound a b)

pub bytes_eq_refl : (a : Bytes) → bytes_eq a a ≡ true
unfolding bytes_eq
bytes_eq_refl [] = refl
bytes_eq_refl (x ∷ a) = ground (arith, bytes_eq_refl a)

-- No byte is zero.
abbrev pub NonZero : Bytes → Type 0
NonZero = All (λ c. 0 < c)

pub cstr-NonZero : (s : Bytes) → NonZero (cstr s)
unfolding cstr
cstr-NonZero [] = tt
cstr-NonZero (c ∷ cs) = ground (arith, cstr-NonZero cs)

-- A text without zeros, with zeros behind it, reads back.
pub cstr-append : (s t : Bytes) → NonZero s → cstr (s ++ 0 ∷ t) ≡ s
unfolding cstr
cstr-append [] t h = refl
cstr-append (c ∷ cs) t (p, h) = ground (arith, cstr-append cs t h)

-- A text without zeros is all text.
pub cstr-nonzero : (s : Bytes) → NonZero s → cstr s ≡ s
unfolding cstr
cstr-nonzero [] h = refl
cstr-nonzero (c ∷ cs) (p, h) = ground (arith, cstr-nonzero cs h)

pub length-cstr : (s : Bytes) → length (cstr s) ≤ length s
unfolding cstr
length-cstr [] = omega arith
length-cstr (c ∷ cs) = ground (arith, length-cstr cs)

-- A terminated array is longer than its text.
pub length-terminated : (s : Bytes) → terminated s ≡ true → length (cstr s) < length s
unfolding cstr terminated
length-terminated [] h = cc
length-terminated (c ∷ cs) h = ground (arith, length-terminated cs)
