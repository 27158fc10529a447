-- ===== src/F2b/Tests.antt =====
-- Runs of the unpickler and of the manager on small inputs.
use logfort.Prelude.{ℕ, ◌≡◌, refl, ◌≢◌, none, List, [], ◌∷◌, ◌++◌, map, arith, pos, negsuc}
use logfort.F2b.Unicode.{pickle_command}
use logfort.F2b.Sample.{runtime, jail_exec, jail_server, defaults, wanted}
use logfort.F2b.Value.{Text, ascii, str, int, slice, Heap, empty_heap, elements}
use logfort.F2b.Machine.{little_endian, decode_long_le}
use logfort.F2b.Unpickle.{value, panicked, unfinished, unpickle}
use logfort.F2b.Ends.{unpickle_ends}
use logfort.F2b.ReadBack.{unpickle-pickle_command, text_value}
use logfort.F2b.Numbers.{unpickle_overflow}
use logfort.F2b.Client.{end_marker, exec_socket, decoded}
use logfort.F2b.Framing.{exec_socket-chunks, chunk_reads, MarkedOnce-of_test}
use logfort.F2b.Manager.{ok, get_jail, set_jail, parse_banned_from_cli}
use logfort.F2b.Jail.{updated, get_jail-set_jail}

abbrev command : List (List ℕ)
command = (b'a' ∷ 10 ∷ b'\\' ∷ []) ∷ [] ∷ (0xe9 ∷ b'u' ∷ []) ∷ []

-- (0, "pong") in protocol 2.
abbrev pong_reply : Text
pong_reply = 0x80 ∷ 2 ∷ b'K' ∷ 0 ∷ b'X' ∷ 4 ∷ 0 ∷ 0 ∷ 0 ∷ (ascii "pong" ++ 0x86 ∷ b'.' ∷ [])

reads_pong :
    unpickle runtime pong_reply
    ≡ value
        (slice 0 2)
        (record empty_heap { arrays = (int (pos 0) ∷ str (ascii "pong") ∷ []) ∷ [] })
unfolding unpickle logfort.F2b.Step.step
reads_pong = refl

-- A list that was memoized before it grew keeps its length.
keeps_slice :
    unpickle runtime (ascii "]q" ++ 0 ∷ (ascii "K" ++ 7 ∷ (ascii "ah" ++ 0 ∷ ascii ".")))
    ≡ value (slice 0 0) (record empty_heap { arrays = [] ∷ (int (pos 7) ∷ []) ∷ [] })
unfolding unpickle logfort.F2b.Step.step logfort.F2b.Machine.put_top
keeps_slice = refl

unpickle_ends_example : unpickle runtime pong_reply ≢ unfinished
unpickle_ends_example = unpickle_ends runtime pong_reply

unpickle-pickle_command_example :
    (a n : ℕ) × (h : Heap) × (unpickle runtime (pickle_command command) ≡ value (slice a n) h)
    × (elements h a n ≡ map text_value command)
unpickle-pickle_command_example =
    unpickle-pickle_command runtime command (
      (omega arith, (omega arith, (omega arith, tt))),
      (tt, ((omega arith, (omega arith, tt)), tt)),
    )

abbrev huge : Text
huge = 255 ∷ 255 ∷ 255 ∷ 255 ∷ 255 ∷ 255 ∷ 255 ∷ 127 ∷ []

unpickle_overflow_example : unpickle runtime (0x8d ∷ (huge ++ b'.' ∷ [])) ≡ panicked
unfolding little_endian
unpickle_overflow_example =
    unpickle_overflow runtime huge (b'.' ∷ []) refl (omega arith) (omega arith)

minus_thousand : decode_long_le (24 ∷ 252 ∷ []) ≡ negsuc 999
unfolding decode_long_le
minus_thousand = refl

abbrev pieces : List Text
pieces = (pong_reply ++ ascii "<F2B_END") ∷ ascii "_COMMAND>" ∷ []

exec_socket-chunks_example :
    exec_socket runtime
      (record { dial_error = none; write_error = none; reads = chunk_reads pieces ++ [] })
    ≡ decoded runtime (unpickle runtime pong_reply)
exec_socket-chunks_example =
    exec_socket-chunks runtime pong_reply pieces [] (omega arith, (omega arith, tt)) refl
      (omega arith) (MarkedOnce-of_test (pong_reply ++ end_marker) refl)

cli_status :
    parse_banned_from_cli
      (ascii "Status for the jail: sshd\n   `- Banned IP list:\t1.2.3.4 5.6.7.8\n")
    ≡ ascii "1.2.3.4" ∷ ascii "5.6.7.8" ∷ []
unfolding parse_banned_from_cli logfort.Go.Bytes.after_colon logfort.Go.Bytes.fields_from
    logfort.Go.Bytes.trim_space
cli_status = refl

get_jail-set_jail_example :
    let (answer, w) = set_jail runtime (λ f. pos 0) jail_exec (ascii "sshd") wanted defaults in
    (answer ≡ ok tt)
    × (get_jail runtime (λ f. pos 0) jail_exec (ascii "sshd") w ≡ (
      ok (
          updated wanted
            (record { max_retry = pos 600; ban_time_secs = pos 600; find_time_secs = pos 600 })),
      w,
    ))
get_jail-set_jail_example =
    get_jail-set_jail runtime (λ f. pos 0) jail_exec (ascii "sshd") jail_server wanted defaults
      (omega arith, omega arith, omega arith) (omega arith, omega arith, omega arith)
