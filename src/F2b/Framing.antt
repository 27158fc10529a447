-- ===== src/F2b/Framing.antt =====
-- A response of fail2ban arrives whole, however the socket cuts it up: execSocket of
-- internal/f2b/client.go.
use logfort.Prelude.{
  ℕ, zero, suc, ◌-◌, ◌≤◌, ◌<◌, ◌≡◌, refl, sym, ap, ◌∙◌, Bool, true, false, not, ◌&&◌, Option, none,
  List, [], ◌∷◌, ◌++◌, arith, ltb, eqb, length, take, length-append, All,
}
use mathlib.Core.List.{append_assoc, append-nil}
use logfort.Go.Bytes.{has_prefix, has_suffix, reverse_onto, trim_suffix}
use logfort.F2b.Value.{Text}
use logfort.F2b.Actions.{Runtime}
use logfort.F2b.Unpickle.{unpickle}
use logfort.F2b.Client.{end_marker, max_response, receive, received, decoded, exec_socket}

pub reverse_onto-append : (acc p : List ℕ) → reverse_onto acc p ≡ reverse_onto [] p ++ acc
reverse_onto-append acc [] = refl
reverse_onto-append acc (c ∷ p) =
    reverse_onto-append (c ∷ acc) p
    ∙ sym (append_assoc (reverse_onto [] p) (c ∷ []) acc)
    ∙ ap (λ l. l ++ acc) (sym (reverse_onto-append (c ∷ []) p))

pub reverse_onto-of_append :
    (acc s p : List ℕ) → reverse_onto acc (s ++ p) ≡ reverse_onto (reverse_onto acc s) p
reverse_onto-of_append acc [] p = refl
reverse_onto-of_append acc (c ∷ s) p = reverse_onto-of_append (c ∷ acc) s p

has_prefix-append : (p s : List ℕ) → has_prefix p (p ++ s) ≡ true
has_prefix-append [] s = refl
has_prefix-append (c ∷ p) s = let e : eqb c c ≡ true = ground arith in rw e (has_prefix-append p s)

pub has_suffix-append : (s p : List ℕ) → has_suffix p (s ++ p) ≡ true
has_suffix-append s p =
    ap (has_prefix (reverse_onto [] p))
      (reverse_onto-of_append [] s p ∙ reverse_onto-append (reverse_onto [] s) p)
    ∙ has_prefix-append (reverse_onto [] p) (reverse_onto [] s)

take-append : (s p : List ℕ) → take (length s) (s ++ p) ≡ s
take-append [] p = refl
take-append (c ∷ s) p = ap (λ l. c ∷ l) (take-append s p)

trim_suffix-append : (s p : List ℕ) → trim_suffix p (s ++ p) ≡ s
unfolding trim_suffix
trim_suffix-append s p =
    let e : length (s ++ p) - length p ≡ length s = omega (arith, length-append s p) in
    rw (has_suffix-append s p, trim_suffix) (ap (λ n. take n (s ++ p)) e ∙ take-append s p)

abbrev pub concat : List Text → Text
concat [] = []
concat (c ∷ cs) = c ++ concat cs

abbrev pub chunk_reads : List Text → List (Text × Option Text)
chunk_reads [] = []
chunk_reads (c ∷ cs) = (c, none) ∷ chunk_reads cs

-- No proper prefix of a text ends in the marker.
abbrev pub MarkedOnce : Text → Type 0
MarkedOnce whole = (p q : Text) → p ++ q ≡ whole → 1 ≤ length q → has_suffix end_marker p ≡ false

receive-last :
    (buf c : Text) (reads : List (Text × Option Text))
    → 1 ≤ length c
    → length (buf ++ c) ≤ max_response
    → has_suffix end_marker (buf ++ c) ≡ true
    → receive buf ((c, none) ∷ reads) ≡ (buf ++ c, none)
unfolding receive
receive-last buf c reads h m k =
    let some_bytes : eqb (length c) 0 ≡ false = ground arith in
    let fits : ltb max_response (length (buf ++ c)) ≡ false = ground arith in
    rw (some_bytes, fits, k) refl

receive-on :
    (buf c : Text) (reads : List (Text × Option Text))
    → 1 ≤ length c
    → length (buf ++ c) ≤ max_response
    → has_suffix end_marker (buf ++ c) ≡ false
    → receive buf ((c, none) ∷ reads) ≡ receive (buf ++ c) reads
unfolding receive
receive-on buf c reads h m k =
    let some_bytes : eqb (length c) 0 ≡ false = ground arith in
    let fits : ltb max_response (length (buf ++ c)) ≡ false = ground arith in
    rw (some_bytes, fits, k) refl

receive-chunks :
    (cs : List Text) (buf whole : Text) (more : List (Text × Option Text))
    → All (λ c. 1 ≤ length c) cs
    → buf ++ concat cs ≡ whole
    → 1 ≤ length cs
    → length whole ≤ max_response
    → has_suffix end_marker whole ≡ true
    → MarkedOnce whole
    → receive buf (chunk_reads cs ++ more) ≡ (whole, none)
receive-chunks [] buf whole more h e n m k o = absurd (omega arith)
receive-chunks (c ∷ []) buf whole more (h, hs) e n m k o =
    let all : buf ++ c ≡ whole = ap (λ l. buf ++ l) (sym (append-nil c)) ∙ e in
    receive-last buf c more h (rw all m) (rw all k) ∙ ap (λ l. (l, none)) all
receive-chunks (c ∷ d ∷ cs) buf whole more (h, hs) e n m k o =
    let split : (buf ++ c) ++ concat (d ∷ cs) ≡ whole = append_assoc buf c (concat (d ∷ cs)) ∙ e in
    let longer = length-append (buf ++ c) (concat (d ∷ cs)) in
    let behind : 1 ≤ length (concat (d ∷ cs)) = omega (arith, length-append d (concat cs), hs.0) in
    let whole_length = ap length split in
    receive-on buf c (chunk_reads (d ∷ cs) ++ more) h (omega (arith, longer, whole_length, m))
      (o (buf ++ c) (concat (d ∷ cs)) split behind)
    ∙ receive-chunks (d ∷ cs) (buf ++ c) whole more hs split (omega arith) m k o

-- A response that a connection without errors delivers in pieces, none of them empty, is decoded whole, and
-- what else might be read does not matter: if it is at most 4 MB long, ends in the end marker and has no
-- other prefix that does.
pub exec_socket-chunks :
    (rt : Runtime) (response : Text) (cs : List Text) (more : List (Text × Option Text))
    → All (λ c. 1 ≤ length c) cs
    → concat cs ≡ response ++ end_marker
    → length (response ++ end_marker) ≤ max_response
    → MarkedOnce (response ++ end_marker)
    → exec_socket rt
        (record { dial_error = none; write_error = none; reads = chunk_reads cs ++ more })
      ≡ decoded rt (unpickle rt response)
unfolding exec_socket
exec_socket-chunks rt response cs more h e m o =
    ap (received rt) (
      receive-chunks cs [] (response ++ end_marker) more h e (pieces cs e) m
        (has_suffix-append response end_marker) o)
    ∙ ap (λ s. decoded rt (unpickle rt s)) (trim_suffix-append response end_marker)
  where
    pieces : (cs : List Text) → concat cs ≡ response ++ end_marker → 1 ≤ length cs
    pieces [] e = absurd (omega (arith, ap length e, length-append response end_marker))
    pieces (c ∷ cs) e = omega arith

abbrev all_below : ℕ → (ℕ → Bool) → Bool
all_below zero p = true
all_below (suc n) p = p n && all_below n p

all_below-at : (n : ℕ) (p : ℕ → Bool) (k : ℕ) → all_below n p ≡ true → k < n → p k ≡ true
all_below-at zero p k h l = absurd (omega arith)
all_below-at (suc n) p k h l = ground (arith, all_below-at n p k)

-- Whether no shorter prefix ends in the marker.
abbrev pub marked_once : Text → Bool
marked_once whole = all_below (length whole) (λ n. not (has_suffix end_marker (take n whole)))

pub MarkedOnce-of_test : (whole : Text) → marked_once whole ≡ true → MarkedOnce whole
MarkedOnce-of_test whole h p q e k =
    let shorter : length p < length whole = omega (arith, ap length e, length-append p q) in
    let prefix : take (length p) whole ≡ p = ap (take (length p)) (sym e) ∙ take-append p q in
    let found = all_below-at (length whole) _ (length p) h shorter in
    ap (has_suffix end_marker) (sym prefix) ∙ not-true found
  where
    not-true : {b : Bool} → not b ≡ true → b ≡ false
    not-true {b = true} h = sym h
    not-true {b = false} h = refl
