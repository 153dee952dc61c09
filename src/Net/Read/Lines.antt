-- ===== src/Net/Read/Lines.antt =====
-- src/net/Server.cpp: what a read in line mode hands over.
use algiz.Base.{
  ℕ, zero, suc, ◌+◌, ◌-◌, ◌≡◌, ◌<◌, ◌≤◌, refl, ap, fun_ext, ◌∙◌, List, [], ◌∷◌, ◌++◌, map, none,
  some, true, false, if◌then◌else◌, ltb, length, take, drop, length-append, take-length-append,
  drop-append_suc, All, arith, take-all, drop-all,
}
use algiz.Base.Bytes.{Bytes, find_byte-Lacks, find_byte-append, Lacks, flat}
use algiz.Net.Read.{
  Client, Reading, going, removed, stale, endless, is_message_complete, and_then, handled_then,
  message_loop, end_round, round, to_read, lowered, read_loop, handle_read,
}

abbrev pub ended : Bytes → Bytes
ended line = line ++ b'\n' ∷ []

module _ {ℓ} {C : Type ℓ} (client : Client C) where
  open client use {line_mode, max_line_size, max_read, set_max_read, connected, handle, leave}

  -- The lines handed over one after the other, as long as the client is there.
  unfoldable pub deliver : C → List Bytes → Bytes → Reading C
  deliver c [] rest = going c rest
  deliver c (line ∷ lines) rest = handled_then client (handle c line) (λ c'. deliver c' lines rest)

  found_line :
      (line tail : Bytes)
      → Lacks b'\n' line
      → is_message_complete (line ++ b'\n' ∷ tail) ≡ some (length line, 1)
  unfolding is_message_complete
  found_line line tail h = rw (find_byte-append b'\n' line tail h, is_message_complete) refl

  no_line : (rest : Bytes) → Lacks b'\n' rest → is_message_complete rest ≡ none
  unfolding is_message_complete
  no_line rest h = rw (find_byte-Lacks b'\n' rest h, is_message_complete) refl

  spelled :
      (line more rest : Bytes)
      → ((line ++ b'\n' ∷ []) ++ more) ++ rest ≡ line ++ b'\n' ∷ (more ++ rest)
  spelled [] more rest = refl
  spelled (b ∷ line) more rest = ap (◌∷◌ b) (spelled line more rest)

  loop_line :
      (fuel : ℕ) (c : C) (line tail : Bytes)
      → Lacks b'\n' line
      → message_loop client (suc fuel) c (line ++ b'\n' ∷ tail)
        ≡ handled_then client (handle c line) (λ c'. message_loop client fuel c' tail)
  unfolding message_loop
  loop_line fuel c line tail h =
      rw (found_line line tail h, message_loop)
        (rw (take-length-append line (b'\n' ∷ tail), drop-append_suc line b'\n' tail) refl)

  loop_rest :
      (fuel : ℕ) (c : C) (rest : Bytes)
      → Lacks b'\n' rest
      → message_loop client (suc fuel) c rest ≡ going c rest
  unfolding message_loop
  loop_rest fuel c rest h = rw (no_line rest h, message_loop) refl

  -- With a unit of fuel for each line and one more, the loop hands over the lines in their order and
  -- leaves the rest.
  pub message_loop-deliver :
      (fuel : ℕ) (c : C) (lines : List Bytes) (rest : Bytes)
      → All (Lacks b'\n') lines
      → Lacks b'\n' rest
      → length lines < fuel
      → message_loop client fuel c (flat (map ended lines) ++ rest) ≡ deliver c lines rest
  unfolding deliver
  message_loop-deliver zero c lines rest hs hr h = absurd (omega arith)
  message_loop-deliver (suc fuel) c [] rest hs hr h = loop_rest fuel c rest hr
  message_loop-deliver (suc fuel) c (line ∷ lines) rest (hl, hs) hr h =
      ap (message_loop client (suc fuel) c) (spelled line (flat (map ended lines)) rest)
      ∙ (loop_line fuel c line (flat (map ended lines) ++ rest) hl
          ∙ ap (handled_then client (handle c line))
              (fun_ext (λ c'. message_loop-deliver fuel c' lines rest hs hr (omega arith))))

  length-flat : (lines : List Bytes) → length lines ≤ length (flat (map ended lines))
  length-flat [] = omega arith
  length-flat (line ∷ lines) = omega (
    arith,
    length-flat lines,
    length-append (ended line) (flat (map ended lines)),
    length-append line (b'\n' ∷ []),
  )

  -- The whole of one round of a read in line mode.
  round-deliver :
      (c : C) (str chunk : Bytes) (lines : List Bytes) (rest : Bytes)
      → line_mode c ≡ true
      → length str + length chunk ≤ max_line_size c
      → str ++ chunk ≡ flat (map ended lines) ++ rest
      → All (Lacks b'\n') lines
      → Lacks b'\n' rest
      → round client c str chunk ≡ and_then client (deliver c lines rest) (end_round client)
  unfolding round
  round-deliver c str chunk lines rest mode fits text hs hr =
      let short : ltb (max_line_size c) (length str + length chunk) ≡ false = ground arith in
      rw (mode, short)
        (ap (λ r. and_then client r (end_round client))
          (ap (λ t. message_loop client (suc (length t)) c t) text
            ∙ message_loop-deliver (suc (length (flat (map ended lines) ++ rest))) c lines rest hs
                hr (omega (arith, length-flat lines, length-append (flat (map ended lines)) rest))))

  count_all :
      (size : ℕ) (c : C) (readable : ℕ)
      → max_read c ≡ 0
      → readable ≤ size
      → to_read client size c readable ≡ readable
  unfolding to_read
  count_all size c readable no_limit fits = ground (arith, no_limit)

  lowered_same : (c : C) (count : ℕ) → max_read c ≡ 0 → lowered client c count ≡ c
  unfolding lowered
  lowered_same c count no_limit =
      ap (λ n. if ltb 0 n then set_max_read (n - count) c else c) no_limit

  and_then-going : (r : Reading C) → and_then client r going ≡ r
  and_then-going (going c str) = refl
  and_then-going (removed c) = refl
  and_then-going stale = refl
  and_then-going endless = refl

  -- A read that takes all that is there in one round.
  whole_round :
      (fuel size : ℕ) (c : C) (str : Bytes) (b : ℕ) (input : Bytes)
      → max_read c ≡ 0
      → length (b ∷ input) ≤ size
      → read_loop client (suc fuel) size c str (b ∷ input) ≡ round client c str (b ∷ input)
  unfolding read_loop
  whole_round fuel size c str b input no_limit fits =
      ap (λ n. part n (lowered client c n)) (count_all size c (length (b ∷ input)) no_limit fits)
      ∙ (ap (part (length (b ∷ input))) (lowered_same c (length (b ∷ input)) no_limit)
          ∙ (ap
                (λ t. and_then client (round client c str t) (λ c' str'.
                  read_loop client fuel size c' str' (drop (length (b ∷ input)) (b ∷ input))))
                (take-all (length (b ∷ input)) (b ∷ input) (omega arith))
              ∙ (ap
                    (λ t.
                      and_then client (round client c str (b ∷ input))
                        (λ c' str'. read_loop client fuel size c' str' t))
                    (drop-all (length (b ∷ input)) (b ∷ input) (omega arith))
                  ∙ and_then-going (round client c str (b ∷ input)))))
    where
      part : ℕ → C → Reading C
      part n low =
          and_then client (round client low str (take n (b ∷ input)))
            (λ c' str'. read_loop client fuel size c' str' (drop n (b ∷ input)))

  -- A read in line mode, without a limit on what is read, of bytes that fit into the chunk and, with
  -- what is in the buffer, into the longest line hands over every complete line, in its order and
  -- without its end, and then comes to what is left of the text.
  pub handle_read-deliver :
      (size : ℕ) (c : C) (str input : Bytes) (lines : List Bytes) (rest : Bytes)
      → line_mode c ≡ true
      → max_read c ≡ 0
      → 0 < length input
      → length input ≤ size
      → length str + length input ≤ max_line_size c
      → str ++ input ≡ flat (map ended lines) ++ rest
      → All (Lacks b'\n') lines
      → Lacks b'\n' rest
      → handle_read client size c str input
        ≡ and_then client (deliver c lines rest) (end_round client)
  unfolding handle_read
  handle_read-deliver size c str [] lines rest mode no_limit some_input fits short text hs hr =
      absurd (omega arith)
  handle_read-deliver size c str (b ∷ input) lines rest mode no_limit some_input fits short text hs
        hr =
      whole_round (length input) size c str b input no_limit fits
      ∙ round-deliver c str (b ∷ input) lines rest mode short text hs hr
