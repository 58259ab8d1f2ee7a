-- ===== src/Config/Record/Texts.antt =====
-- Texts in their places: what was packed at an offset is what is unpacked from there.
use esp_nmea_bridge.Prelude.{
  ℕ, zero, suc, ◌+◌, ◌-◌, ◌^◌, ◌≤◌, ◌<◌, ◌≡◌, refl, ap, sym, ◌∙◌, [], ◌∷◌, ◌++◌, ◌==◌, length,
  get_or, take, drop, replicate, arith, append_assoc, append-nil, length-append, length-replicate,
  take-append, Bool-cases, inl, inr,
}
use esp_nmea_bridge.Prelude.Byte.{u8}
use esp_nmea_bridge.Prelude.CString.{Bytes, cstr, NonZero, cstr-append}
use esp_nmea_bridge.Config.Record.{pad, bytes_of, number_of, pack_text, unpack_text}

pub get_or-at :
    (xs : Bytes) (n : ℕ) (ys : Bytes) (k : ℕ) → k ≡ length xs → get_or (xs ++ n ∷ ys) k 0 ≡ n
get_or-at [] n ys zero e = refl
get_or-at [] n ys (suc k) e = absurd (omega arith)
get_or-at (x ∷ xs) n ys zero e = absurd (omega arith)
get_or-at (x ∷ xs) n ys (suc k) e = get_or-at xs n ys k (omega arith)

pub drop-at : (xs ys : Bytes) (k : ℕ) → k ≡ length xs → drop k (xs ++ ys) ≡ ys
drop-at [] ys zero e = refl
drop-at [] ys (suc k) e = absurd (omega arith)
drop-at (x ∷ xs) ys zero e = absurd (omega arith)
drop-at (x ∷ xs) ys (suc k) e = drop-at xs ys k (omega arith)

drop-behind :
    (pre : Bytes) (n : ℕ) (ys : Bytes) (k : ℕ) → k ≡ suc (length pre) → drop k (pre ++ n ∷ ys) ≡ ys
drop-behind [] n ys zero e = absurd (omega arith)
drop-behind [] n ys (suc zero) e = refl
drop-behind [] n ys (suc (suc k)) e = absurd (omega arith)
drop-behind (x ∷ pre) n ys zero e = absurd (omega arith)
drop-behind (x ∷ pre) n ys (suc k) e = drop-behind pre n ys k (omega arith)

pub take-cstr : (a : Bytes) → take (length (cstr a)) a ≡ cstr a
unfolding cstr
take-cstr [] = refl
take-cstr (c ∷ cs) = elim (Bool-cases (c == 0)) [
  | inl e ↦ rw e
  | inr e ↦ rw e (ap (λ t. c ∷ t) (take-cstr cs))
]

abbrev pub zeros : ℕ → Bytes
zeros n = replicate n 0

pub length-pad : (w : ℕ) (t : Bytes) → length t ≤ w → length (pad w t) ≡ w
unfolding pad
length-pad w t h =
    omega (
      arith,
      length-append t (replicate (w - length t) 0),
      length-replicate {A = ℕ} (w - length t) 0,
    )

-- The text of an array is what was padded.
pub cstr-pad : (w : ℕ) (t : Bytes) → NonZero t → length t < w → cstr (pad w t) ≡ t
unfolding pad
cstr-pad w t nz h =
    let e : w - length t ≡ suc (w - length t - 1) = omega arith in
    rw e (cstr-append t (replicate (w - length t - 1) 0) nz)

pub pack_text-eq :
    (w : ℕ) (a : Bytes)
    → length (cstr a) ≤ w
    → w < 256
    → pack_text w a ≡ length (cstr a) ∷ pad w (cstr a)
unfolding pack_text
pack_text-eq w a h small =
    let e : u8 (length (cstr a)) ≡ length (cstr a) = omega arith in rw (e, take-cstr)

take-pad : (w : ℕ) (t rest : Bytes) → take (length t) (pad w t ++ rest) ≡ t
unfolding pad
take-pad w t rest = rw append_assoc (take-append t (zeros (w - length t) ++ rest))

-- A padded text that stands at an offset, with anything behind it.
pub unpack_text-at :
    (w v : ℕ) (pre t post : Bytes) (k : ℕ)
    → k ≡ length pre
    → unpack_text w (length t) k (pre ++ (pad v t ++ post)) ≡ pad (w + 1) t
unfolding unpack_text
unpack_text-at w v pre t post k e = rw (drop-at pre (pad v t ++ post) k e, take-pad v t post)

-- A padded text at the end, behind its length byte.
pub unpack_text-behind :
    (w v : ℕ) (pre : Bytes) (n : ℕ) (t : Bytes) (k : ℕ)
    → k ≡ suc (length pre)
    → unpack_text w (length t) k (pre ++ n ∷ pad v t) ≡ pad (w + 1) t
unfolding unpack_text
unpack_text-behind w v pre n t k e = rw (
  drop-behind pre n (pad v t) k e,
  ap (take (length t)) (sym (append-nil (pad v t))) ∙ take-pad v t [],
)

pub number_of-bytes_of :
    (v : ℕ)
    → (v < 2 ^ 32 → number_of (bytes_of 4 v) ≡ v) × (v < 2 ^ 16 → number_of (bytes_of 2 v) ≡ v)
unfolding number_of bytes_of
number_of-bytes_of v = (λ h. omega arith, λ h. omega arith)
