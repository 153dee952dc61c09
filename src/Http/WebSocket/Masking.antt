-- ===== src/Http/WebSocket/Masking.antt =====
-- http/Client: masking twice with the same mask changes nothing.
use Prim.Native.Nat.{bit_xor}
use algiz.Base.{
  ℕ, suc, ◌+◌, ◌%◌, ◌<◌, ◌≡◌, refl, [], ◌∷◌, ◌++◌, Bool, true, ◌==◌, arith, ap, ap₂, ==→eq, length,
}
use algiz.Base.Finite.{passes, passes-at}
use algiz.Base.Bytes.{Bytes, IsBytes}
use algiz.Http.WebSocket.{mask_byte, unmask, offset_after}

unmasks : ℕ → ℕ → Bool
unmasks m b = bit_xor (bit_xor b m) m == b

unmasks_table : passes (λ m. passes (unmasks m) 256) 256 ≡ true
unfolding passes unmasks
unmasks_table = refl

xor_back : (b m : ℕ) → b < 256 → m < 256 → bit_xor (bit_xor b m) m ≡ b
unfolding unmasks
xor_back b m hb hm = ==→eq _ b (
    passes-at (unmasks m) 256 b hb (passes-at (λ m. passes (unmasks m) 256) 256 m hm unmasks_table))

-- Masking is its own inverse.
pub unmask-unmask :
    (mask offset : ℕ) (s : Bytes) → IsBytes s → unmask mask offset (unmask mask offset s) ≡ s
unfolding unmask mask_byte
unmask-unmask mask offset [] h = refl
unmask-unmask mask offset (b ∷ s) (hb, h) =
    ap₂ ◌∷◌ (xor_back b _ hb (omega arith)) (unmask-unmask mask ((offset + 1) % 4) s h)

pub unmask-append :
    (mask offset : ℕ) (s t : Bytes)
    → unmask mask offset (s ++ t) ≡ unmask mask offset s ++ unmask mask (offset_after offset s) t
unfolding unmask offset_after
unmask-append mask offset [] t = refl
unmask-append mask offset (b ∷ s) t =
    ap (◌∷◌ (bit_xor b (mask_byte mask offset))) (unmask-append mask ((offset + 1) % 4) s t)

pub offset_after-append :
    (offset : ℕ) (s t : Bytes)
    → offset_after offset (s ++ t) ≡ offset_after (offset_after offset s) t
unfolding offset_after
offset_after-append offset [] t = refl
offset_after-append offset (b ∷ s) t = offset_after-append ((offset + 1) % 4) s t

pub length-unmask : (mask offset : ℕ) (s : Bytes) → length (unmask mask offset s) ≡ length s
unfolding unmask
length-unmask mask offset [] = refl
length-unmask mask offset (b ∷ s) = ap suc (length-unmask mask ((offset + 1) % 4) s)
