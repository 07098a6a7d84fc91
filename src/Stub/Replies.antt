-- ===== src/Stub/Replies.antt =====
-- src/driver/hci_stub.c, HciStubSubmitCommand: the answer that a command gets.
use virt_bth_usb.Common.{ℕ, ◌+◌, ◌≤◌, ◌<◌, ◌≡◌, refl, arith, Bool, true, false, ◌||◌, ltb, leb}
use virt_bth_usb.Common.{
  List, [], ◌∷◌, ◌++◌, length, byte, le16, IsByte, All, byte-lt, either, cases, ◌==◌, inc32,
}
use virt_bth_usb.Fifo.Queue.{
  IsRing, contents, contents-append_back, append_back-IsRing, empty_fifo-IsRing,
}
use virt_bth_usb.Stub.{
  HciStub, event_depth, max_event_size, stub_init, put_event, command_complete,
  queue_command_complete, return_parameters, is_truncated, submit_command,
}
use virt_bth_usb.Stub.Tables.{ext_features}

pub record IsStub (stub : HciStub) : Type 0 where
  pub ring : IsRing event_depth stub.fifo
  pub address : length stub.bd_addr ≡ 6

-- A Command_Complete with status 0 that answers an opcode and fits a slot.
pub record IsReply (opcode : ℕ) (event : List ℕ) : Type 0 where
  pub code : byte event 0 ≡ 0x0E
  pub framed : 2 + byte event 1 ≡ length event
  pub fits : length event ≤ max_event_size
  pub credits : byte event 2 ≡ 1
  pub answers : le16 event 3 ≡ opcode
  pub success : byte event 5 ≡ 0

-- What submitting a command does: a truncated one changes nothing, a full queue counts a lost
-- event, and otherwise the answer joins the queue; only this last is a success.
pub data Submits (stub : HciStub) (command : List ℕ) : HciStub × Bool → Type 0 where
  refused : is_truncated command ≡ true → Submits stub command (stub, false)
  lost :
      is_truncated command ≡ false
      → event_depth ≤ stub.fifo.count
      → Submits stub command (record stub { dropped = inc32 stub.dropped }, false)
  answered :
      (stub' : HciStub) (event : List ℕ)
      → is_truncated command ≡ false
      → IsReply (le16 command 0) event
      → contents event_depth stub'.fifo ≡ contents event_depth stub.fifo ++ (event ∷ [])
      → stub'.dropped ≡ stub.dropped
      → IsStub stub'
      → Submits stub command (stub', true)

pub stub_init-IsStub : IsStub stub_init
unfolding stub_init
stub_init-IsStub = record { ring = empty_fifo-IsRing event_depth (omega arith); address = refl }

-- No answer is longer than a slot.
parameters_fit :
    (stub : HciStub) (opcode : ℕ) (command : List ℕ)
    → IsStub stub
    → length (return_parameters stub opcode command) ≤ 248
unfolding return_parameters ext_features
parameters_fit stub opcode command v =
    let P : List ℕ → Type 0 = λ extra. length extra ≤ 248 in
    either P (opcode == 0x1001) (omega arith) (
      either P (opcode == 0x1002) (omega arith) (
        either P (opcode == 0x1003) (omega arith) (
          either P (opcode == 0x1004) (omega arith) (
            either P (opcode == 0x1005) (omega arith) (
              either P (opcode == 0x1009) (omega (arith, v.address)) (
                either P (opcode == 0x2002) (omega arith) (
                  either P (opcode == 0x2003) (omega arith) (
                    either P (opcode == 0x201C) (omega arith) (
                      either P (opcode == 0x0C14) (omega arith) (
                        either P (opcode == 0x0C23) (omega arith) (
                          either P (opcode == 0x0C25) (omega arith) (
                            either P (opcode == 0x0C17) (omega arith) (
                              either P (opcode == 0x0C19) (omega arith) (
                                either P (opcode == 0x100B) (omega arith) (
                                  either P (opcode == 0x2007) (omega arith) (
                                    either P (opcode == 0x200F) (omega arith) (
                                      either P (opcode == 0x202A) (omega arith) (
                                        either P (opcode == 0x202F) (omega arith) (
                                          either P (opcode == 0x2023) (omega arith) (
                                            either P (opcode == 0x0C58) (omega arith) (
                                              either P (opcode == 0x0C0D) (omega arith) (
                                                either P (opcode == 0x0C11) (omega arith) (
                                                  either P (opcode == 0x0C12) (omega arith)
                                                    (omega arith))))))))))))))))))))))))

command_complete-IsReply :
    (opcode : ℕ) (extra : List ℕ)
    → opcode < 65536
    → length extra ≤ 248
    → IsReply opcode (command_complete opcode extra)
command_complete-IsReply opcode extra h k = record {
  code = refl;
  framed = omega arith;
  fits = omega arith;
  credits = refl;
  answers = omega arith;
  success = refl;
}

queued :
    (stub : HciStub) (command : List ℕ) (extra : List ℕ)
    → IsStub stub
    → is_truncated command ≡ false
    → le16 command 0 < 65536
    → length extra ≤ 248
    → Submits stub command (queue_command_complete stub (le16 command 0) extra)
unfolding queue_command_complete put_event
queued stub command extra v whole h k =
    let event = command_complete (le16 command 0) extra in
    let P = Submits stub command in
    cases P (ltb 255 (4 + length extra) || ltb max_event_size (2 + (4 + length extra)))
      (λ big. absurd (ground (arith, big, k)))
      (λ _.
        cases P (leb event_depth stub.fifo.count) (λ full. lost whole (ground (arith, full)))
          (λ room.
            let space : stub.fifo.count < event_depth = ground (arith, room) in
            answered _ event whole (command_complete-IsReply (le16 command 0) extra h k)
              (contents-append_back event_depth stub.fifo event v.ring space) refl
              (record {
                ring = append_back-IsRing event_depth stub.fifo event v.ring space;
                address = v.address;
              })))

-- Every command is answered by one Command_Complete for its opcode, unless it is truncated or the
-- queue is full.
pub submit_command-Submits :
    (stub : HciStub) (command : List ℕ)
    → IsStub stub
    → All IsByte command
    → Submits stub command (submit_command stub command)
unfolding submit_command
submit_command-Submits stub command v bytes =
    let opcode = le16 command 0 in
    cases (Submits stub command) (is_truncated command) (λ bad. refused bad)
      (λ whole.
        queued stub command (return_parameters stub opcode command) v whole
          (omega (arith, byte-lt command 0 bytes, byte-lt command 1 bytes))
          (parameters_fit stub opcode command v))
