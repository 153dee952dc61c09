-- ===== src/Util/Url/Faults.antt =====
-- util/Util: when `unescape` reads past the end of its argument.
use algiz.Base.{
  ℕ, zero, suc, ◌+◌, ◌-◌, ◌%◌, ◌^◌, ◌≡◌, ◌≤◌, ◌<◌, ◌≢◌, [], ◌∷◌, Option, none, some, length, Bool,
  arith, ltb, ◌==◌, not, ◌&&◌, ◌||◌, if◌then◌else◌,
}
use algiz.Base.Bytes.{Bytes, find_byte}
use algiz.Util.Url.{look_ahead, push, unescape_loop, unescape, is_xdigit, hex_pair}
use algiz.Util.Url.RoundTrip.{unescape-eq-loop}

round-ne-none :
    (p q r : Bool) (x y z : ℕ) (n m : Option Bytes)
    → n ≢ none
    → m ≢ none
    → (if p then push x n else if q then push y n else if r then push y n else push z m) ≢ none
round-ne-none p q r x y z n m hn hm = λ h. ground arith

loop_in_range :
    (plus : Bool) (size i skip : ℕ) (s : Bytes)
    → 3 ≤ size
    → size < 2 ^ 64
    → i + length s ≡ size
    → unescape_loop plus size i skip s ≢ none
unfolding unescape_loop look_ahead
loop_in_range plus size i skip [] a b e = λ h. cc
loop_in_range plus size i (suc skip) (c ∷ s) a b e =
    loop_in_range plus size (i + 1) skip s a b (omega arith)
loop_in_range plus size i zero (c ∷ []) a b e = λ h. ground arith
loop_in_range plus size i zero (c ∷ d ∷ []) a b e =
    λ h. ground (arith, loop_in_range plus size (i + 1) 0 (d ∷ []))
loop_in_range plus size i zero (c ∷ d ∷ f ∷ s) a b e =
    round-ne-none (plus && c == b'+') (not (c == b'%') || ltb ((size + 2 ^ 64 - 3) % 2 ^ 64) i)
      (not (is_xdigit d) || not (is_xdigit f)) b' ' c (hex_pair d f) _ _
      (loop_in_range plus size (i + 1) 0 (d ∷ f ∷ s) a b (omega arith))
      (loop_in_range plus size (i + 1) 2 (d ∷ f ∷ s) a b (omega arith))

-- From three bytes on, `unescape` reads only inside its argument.
pub unescape_in_range :
    (s : Bytes) (plus : Bool) → 3 ≤ length s → length s < 2 ^ 64 → unescape s plus ≢ none
unescape_in_range s plus a b =
    rw unescape-eq-loop (loop_in_range plus (length s) 0 0 s a b (omega arith))

-- On one or two bytes with a percent sign among them, `size - 3` wraps around and `unescape` reads
-- past the end.
pub unescape_short :
    (s : Bytes) (plus : Bool) (n : ℕ)
    → length s < 3
    → find_byte b'%' s ≡ some n
    → unescape s plus ≡ none
unfolding unescape unescape_loop find_byte
unescape_short [] plus n h f = cc
unescape_short (a ∷ []) plus n h f = ground arith
unescape_short (a ∷ b ∷ []) plus n h f = ground arith
unescape_short (a ∷ b ∷ c ∷ s) plus n h f = absurd (omega arith)
