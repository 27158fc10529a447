-- ===== src/F2b/Client.antt =====
-- internal/f2b/client.go: a response on fail2ban's socket, and AsInt. The socket is a script of what its calls
-- return.
use logfort.Prelude.{
  ℕ, ◌+◌, ◌-◌, ◌*◌, Bool, true, false, ◌&&◌, Option, none, some, List, [], ◌∷◌, ◌++◌, ltb, leb, eqb,
  if◌then◌else◌, length, ℤ, pos, eqb_ℤ,
}
use logfort.Go.Bytes.{has_suffix, trim_suffix, trim_space, split_sign, int_of}
use logfort.F2b.Unicode.{pickle_command}
use logfort.F2b.Value.{Text, ascii, Value, str, int, float, as_slice, Heap, elements, stringify}
use logfort.F2b.Actions.{Runtime}
use logfort.F2b.Unpickle.{Result, value, failed, panicked, unfinished, unpickle}

abbrev pub end_marker : Text
end_marker = ascii "<F2B_END_COMMAND>"

abbrev pub close_marker : Text
close_marker = ascii "<F2B_CLOSE_COMMAND>"

abbrev pub max_response : ℕ
max_response = 4194304

-- What Exec gives: a payload and the memory it lives in, an error with its text, or a panic.
pub data Reply : Type 0 where
  payload : Value → Heap → Reply
  refused : Text → Reply
  crashed : Reply

-- A connection: the errors of Dial and of the first Write, and for each Read its bytes and its error.
pub record Socket : Type 0 where
  pub dial_error : Option Text
  pub write_error : Option Text
  pub reads : List (Text × Option Text)

abbrev read_failed : Text → Option Text
read_failed e = some (ascii "f2b: read: " ++ e)

abbrev unless_error : Option Text → Text × Option Text → Text × Option Text
unless_error none on = on
unless_error (some e) on = ([], read_failed e)

-- The loop of execSocket: the response or the text of an error. When no bytes come, the deadline does.
unfoldable pub receive : Text → List (Text × Option Text) → Text × Option Text
receive buf [] = ([], read_failed (ascii "i/o timeout"))
receive buf ((chunk, error) ∷ reads) =
    let buf' = buf ++ chunk in
    let on = unless_error error (receive buf' reads) in
    if eqb (length chunk) 0
    then on
    else if ltb max_response (length buf')
    then ([], some (ascii "f2b: response exceeds 4194304 bytes"))
    else if has_suffix end_marker buf'
    then (buf', none)
    else on

abbrev pub as_int64 : Value → Option ℤ
as_int64 (int n) = some n
as_int64 _ = none

-- What an error says of a value; a value that holds itself overflows the stack.
abbrev refused_of : Text → Option Text → Reply
refused_of message none = crashed
refused_of message (some s) = refused (message ++ s)

module _ (rt : Runtime) where
  abbrev says : Text → Heap → Value → Reply
  says message h v = refused_of message (stringify rt.print rt.depth h v)

  abbrev with_code : Value → Value → Heap → Option ℤ → Reply
  with_code code body h none = says (ascii "f2b: unexpected response code: ") h code
  with_code code body h (some n) =
      if eqb_ℤ n (pos 0) then payload body h else says (ascii "f2b: server error: ") h body

  abbrev of_tuple : Value → Heap → List Value → Reply
  of_tuple v h (code ∷ body ∷ []) = with_code code body h (as_int64 code)
  of_tuple v h _ = says (ascii "f2b: unexpected response shape: ") h v

  -- interpretResponse.
  unfoldable pub interpret_response : Value → Heap → Reply
  interpret_response v h = elim (as_slice v) [
    | none ↦ says (ascii "f2b: unexpected response shape: ") h v
    | some (a, n) ↦ of_tuple v h (elements h a n)
  ]

  abbrev pub decoded : Result → Reply
  decoded (value v h) = interpret_response v h
  decoded (failed e) = refused (ascii "f2b: decode response: pickle: " ++ ascii e)
  decoded panicked = crashed
  decoded unfinished = crashed

  abbrev pub received : Text × Option Text → Reply
  received (buf, none) = decoded (unpickle rt (trim_suffix end_marker buf))
  received (buf, some e) = refused e

  -- execSocket; the goodbye that it sends changes no result.
  unfoldable pub exec_socket : Socket → Reply
  unfolding receive interpret_response unpickle
  exec_socket s = elim (s.dial_error) [
    | some e ↦ refused (ascii "f2b: dial: " ++ e)
    | none ↦ elim (s.write_error) [
      | some e ↦ refused (ascii "f2b: write: " ++ e)
      | none ↦ received (receive [] s.reads)
    ]
  ]

-- What execSocket writes.
abbrev pub request : List (List ℕ) → Text
request args = pickle_command args ++ end_marker

-- The digits that a text begins with, and whether there are any; fmt's %d stops at what is none.
abbrev pub scan_digits : ℕ → Bool → Text → Option ℕ
scan_digits n any [] = if any then some n else none
scan_digits n any (c ∷ s) =
    let on = scan_digits (n * 10 + (c - b'0')) true s in
    if leb b'0' c && leb c b'9' then on else if any then some n else none

-- fmt.Sscanf(s, "%d", &n) of a text that begins with no space.
unfoldable pub sscan_int : Text → Option ℤ
sscan_int s =
    let (minus, rest) = split_sign s in
    elim (scan_digits 0 false rest) [ none ↦ none | some n ↦ int_of minus n ]

-- AsInt; how a float64 becomes an int64 is a parameter.
unfoldable pub as_int : (ℕ → ℤ) → Value → Option ℤ
unfolding sscan_int
as_int truncate (int n) = some n
as_int truncate (float f) = some (truncate f)
as_int truncate (str s) = sscan_int (trim_space s)
as_int truncate _ = none
