-- ===== src/Keyboard/Ack.antt =====
-- The acknowledgements and the key presses of src/kernel/keyboard/ps2.c.
use asif_os.Prelude.{
  ℕ, zero, suc, ◌≤◌, ◌<◌, ◌≡◌, ◌≢◌, refl, sym, ap, ap₂, ◌+◌, All, ◌∙◌, arith, Bool, true, false,
  Option, some, List, [], ◌∷◌, ◌++◌, ◌==◌, leb, if◌then◌else◌, ◌>>=◌, get_or, drop, leb_then,
  leb_else, length, replicate, pick_then, pick_else, ℕ_discrete, dec_lt, append_assoc, append-nil,
}
use asif_os.Kern.Status.{Status, all_ok, eio}
use asif_os.Keyboard.{KeyboardBuffer, push}
use asif_os.Keyboard.Ps2.{
  data_port, acknowledged, resend, scan_set, ack_loop, wait_for_ack, scancode_to_char,
  interrupt_handler,
}
use asif_os.Io.{Ports, answers_at}

abbrev all_nonzero : List ℕ → Bool
all_nonzero [] = true
all_nonzero (zero ∷ codes) = false
all_nonzero (suc c ∷ codes) = all_nonzero codes

nonzero :
    (codes : List ℕ) (i : ℕ) → all_nonzero codes ≡ true → i < length codes → get_or codes i 0 ≢ 0
nonzero [] i h lt = absurd (omega arith)
nonzero (zero ∷ codes) i h lt = cc
nonzero (suc c ∷ codes) zero h lt = λ e. omega arith
nonzero (suc c ∷ codes) (suc i) h lt = nonzero codes i h (omega arith)

-- A run that waits for an acknowledgement: the requests to send again it reads first, each of them
-- answered by sending the command once; one other byte, which it reads past; the byte that decides it,
-- which is behind another byte, behind all the rounds, or the acknowledgement; and the bytes it leaves.
pub record Acked (count command : ℕ) (bytes : List ℕ) (writes : List (ℕ × ℕ))
    (run : Option (Status × Ports)) : Type 0 where
  resends : ℕ
  others : List ℕ
  byte : ℕ
  rest : List ℕ
  reads : bytes ≡ replicate resends resend ++ (others ++ (byte ∷ rest))
  few_reads : resends + length others ≤ count
  one_other : length others ≤ 1
  other_bytes : All (λ c. (c ≢ acknowledged) × (c ≢ resend)) others
  decides : others ≡ [] → resends < count → byte ≡ acknowledged
  ends :
      run
      ≡ some (
        if byte == acknowledged then all_ok else eio,
        record {
          answers = answers_at data_port rest [];
          writes = writes ++ replicate resends (data_port, command);
        },
      )

ack_loop_lem :
    (count command : ℕ) (bytes : List ℕ) (writes : List (ℕ × ℕ))
    → count < length bytes
    → Acked count command bytes writes (
        ack_loop count command
          (record { answers = answers_at data_port bytes []; writes = writes }))
unfolding ack_loop
ack_loop_lem count command [] writes lt = absurd (omega arith)
ack_loop_lem zero command (byte ∷ rest) writes lt = record {
  resends = 0;
  others = [];
  byte = byte;
  rest = rest;
  reads = refl;
  few_reads = omega arith;
  one_other = omega arith;
  other_bytes = tt;
  decides = λ e lt. absurd (omega arith);
  ends = rw (append-nil writes) refl;
}
ack_loop_lem (suc count) command (first ∷ []) writes lt = absurd (omega arith)
ack_loop_lem (suc count) command (first ∷ byte ∷ rest) writes lt =
    elim (ℕ_discrete first acknowledged) [
      | yes e ↦ record {
        resends = 0;
        others = [];
        byte = first;
        rest = byte ∷ rest;
        reads = refl;
        few_reads = omega arith;
        one_other = omega arith;
        other_bytes = tt;
        decides = λ none_other lt. e;
        ends = rw (append-nil writes) (
            pick_then e _ _
            ∙ ap
                (λ res. some (
                  res,
                  record { answers = answers_at data_port (byte ∷ rest) []; writes = writes },
                ))
                (sym (pick_then e all_ok eio)));
      }
      | no ne ↦ elim (ℕ_discrete first resend) [
        | yes e ↦
            let again =
              ack_loop_lem count command (byte ∷ rest) (writes ++ ((data_port, command) ∷ []))
                (omega arith) in
            record {
              resends = suc again.resends;
              others = again.others;
              byte = again.byte;
              rest = again.rest;
              reads = ap₂ (λ x xs. x ∷ xs) e again.reads;
              few_reads = omega (arith, again.few_reads);
              one_other = again.one_other;
              other_bytes = again.other_bytes;
              decides = λ none_other lt. again.decides none_other (omega arith);
              ends =
                  pick_else ne _ _
                  ∙ pick_then e _ _
                  ∙ again.ends
                  ∙ ap
                      (λ sent. some (
                        if again.byte == acknowledged then all_ok else eio,
                        record { answers = answers_at data_port again.rest []; writes = sent },
                      ))
                      (append_assoc writes ((data_port, command) ∷ [])
                        (replicate again.resends (data_port, command)));
            }
        | no other ↦ record {
          resends = 0;
          others = first ∷ [];
          byte = byte;
          rest = rest;
          reads = refl;
          few_reads = omega arith;
          one_other = omega arith;
          other_bytes = ((ne, other), tt);
          decides = λ none_other lt. cc;
          ends = rw (append-nil writes) (pick_else ne _ _ ∙ pick_else other _ _);
        }
      ]
    ]

-- On a port with at least four answers the wait for an acknowledgement ends within four reads: it sends
-- the command once for each request to send it again that it reads, of which there are three at most,
-- and nothing else; it stops at the acknowledgement, at the byte behind the third request, or at the
-- byte behind one that is neither, and that byte decides its answer.
pub wait_for_ack-Acked :
    (command : ℕ) (bytes : List ℕ) (writes : List (ℕ × ℕ))
    → 3 < length bytes
    → Acked 3 command bytes writes
        (wait_for_ack command (record { answers = answers_at data_port bytes []; writes = writes }))
unfolding wait_for_ack
wait_for_ack-Acked command bytes writes lt = ack_loop_lem 3 command bytes writes lt

pub scan_set_nonzero : (code : ℕ) → 0 < code → code < 84 → get_or scan_set code 0 ≢ 0
scan_set_nonzero zero some_code lt = absurd (omega arith)
scan_set_nonzero (suc code) some_code lt = nonzero (drop 1 scan_set) code refl (omega arith)

-- Without shift, a key press of the scan set, of a code other than 0, pushes its character to the
-- keyboard buffer; a code behind the set, as every release of a key is, leaves the buffer as it was.
pub interrupt_handler_lem :
    (buf : KeyboardBuffer) (scancode code : ℕ) (after writes : List (ℕ × ℕ))
    → 0 < scancode
    → interrupt_handler false buf
        (record { answers = (data_port, scancode) ∷ (data_port, code) ∷ after; writes = writes })
      ≡ (if leb 84 scancode
          then some (buf, record { answers = after; writes = writes })
          else (push buf (get_or scan_set scancode 0) >>= λ (res, buf').
              some (buf', record { answers = after; writes = writes })))
unfolding interrupt_handler scancode_to_char
interrupt_handler_lem buf scancode code after writes some_code =
    let ports' : Ports = record { answers = after; writes = writes } in
    let pushed : ℕ → Option (KeyboardBuffer × Ports) =
      λ ch. push buf ch >>= λ (res, buf'). some (buf', ports') in
    let react : ℕ → Option (KeyboardBuffer × Ports) =
      λ ch. if ch == 0 then some (buf, ports') else pushed ch in
    elim (dec_lt scancode 84) [
      | yes lt ↦
          ap react (leb_else lt 0 (get_or scan_set scancode 0))
          ∙ pick_else (scan_set_nonzero scancode some_code lt) (some (buf, ports'))
              (pushed (get_or scan_set scancode 0))
          ∙ sym (leb_else lt (some (buf, ports')) (pushed (get_or scan_set scancode 0)))
      | no behind ↦
          ap react (leb_then {i = 84} {k = scancode} (omega arith) 0 (get_or scan_set scancode 0))
          ∙ sym (
              leb_then {i = 84} {k = scancode} (omega arith) (some (buf, ports'))
                (pushed (get_or scan_set scancode 0)))
    ]
