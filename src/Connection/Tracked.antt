-- ===== src/Connection/Tracked.antt =====
-- pkg/lierc/connection.go: trackedConn, the socket that keeps its first error and how much has come
-- since the last newline.
use lierc.Base.{
  ℕ, suc, ◌+◌, ◌-◌, ◌≤◌, List, [], ◌∷◌, ◌++◌, Option, none, some, true, Text, ◌≡◌, refl, sym, ◌∙◌,
  ap, arith, inl, inr, length, ◌==◌, leb, Option-cases, Bool-cases, if◌then◌else◌,
}

-- ircMaxLineLen + 8192
abbrev pub read_q_limit : ℕ
read_q_limit = 8704

-- trackedConn, with its errors by their messages.
pub record TrackedConn : Type 0 where
  pub first : Option Text
  pub pending : ℕ

abbrev pub first_error : Option Text → Text → Text
first_error none err = err
first_error (some first) err = first

unfoldable pub record_error : Text → TrackedConn → TrackedConn
record_error err t = record t { first = some (first_error t.first err) }

-- bytes.LastIndexByte
unfoldable pub last_index : ℕ → Text → Option ℕ
last_index b [] = none
last_index b (x ∷ s) = elim (last_index b s) [
  | none ↦ if x == b then some 0 else none
  | some i ↦ some (suc i)
]

-- The bytes since the last newline, once `s` has been read.
unfoldable pub pending_after : Option ℕ → Text → ℕ → ℕ
pending_after none s pending = pending + length s
pending_after (some i) s pending = length s - i - 1

unfoldable pub record_if : Option Text → TrackedConn → TrackedConn
unfolding record_error
record_if none t = t
record_if (some err) t = record_error err t

-- Read, with the message of ircreader.ErrReadQ, what the socket's Read read, and its error.
unfoldable pub read : Text → Text → Option Text → TrackedConn → TrackedConn
unfolding last_index pending_after record_error record_if
read read_q s err t =
    let t' = record t { pending = pending_after (last_index b'\n' s) s t.pending } in
    record_if err (if leb read_q_limit t'.pending then record_error read_q t' else t')

-- Write, with its error.
unfoldable pub write : Option Text → TrackedConn → TrackedConn
unfolding record_if
write err t = record_if err t

-- A byte read, as a newline or not.
abbrev pub line_length : ℕ → Text → ℕ
line_length pending [] = pending
line_length pending (x ∷ s) = line_length (if x == b'\n' then 0 else pending + 1) s

pub data Op : Type 0 where
  reads : Text → Option Text → Op
  writes : Option Text → Op

unfoldable pub run : Text → List Op → TrackedConn → TrackedConn
unfolding read write
run read_q [] t = t
run read_q (reads s err ∷ ops) t = run read_q ops (read read_q s err t)
run read_q (writes err ∷ ops) t = run read_q ops (write err t)

-- All that was read.
abbrev pub bytes_read : List Op → Text
bytes_read [] = []
bytes_read (reads s err ∷ ops) = s ++ bytes_read ops
bytes_read (writes err ∷ ops) = bytes_read ops

line_length-append :
    (pending : ℕ) (s s' : Text)
    → line_length pending (s ++ s') ≡ line_length (line_length pending s) s'
line_length-append pending [] s' = refl
line_length-append pending (x ∷ s) s' =
    line_length-append (if x == b'\n' then 0 else pending + 1) s s'

last_index-lt : (b i : ℕ) (s : Text) → last_index b s ≡ some i → suc i ≤ length s
unfolding last_index
last_index-lt b i [] h = ground arith
last_index-lt b i (x ∷ s) h = elim (Option-cases (last_index b s)) [
  | inl e ↦ ground arith
  | inr (j, e) ↦ ground (arith, last_index-lt b j s e)
]

pending_after_lem :
    (s : Text) (pending : ℕ) → pending_after (last_index b'\n' s) s pending ≡ line_length pending s
unfolding pending_after last_index
pending_after_lem [] pending = omega arith
pending_after_lem (x ∷ s) pending = elim (Option-cases (last_index b'\n' s)) [
  | inl e ↦ ground (arith, pending_after_lem s 0, pending_after_lem s (pending + 1))
  | inr (j, e) ↦
      ground
        (arith, pending_after_lem s 0, pending_after_lem s (pending + 1), last_index-lt b'\n' j s e)
]

record_if-pending : (err : Option Text) (t : TrackedConn) → (record_if err t).pending ≡ t.pending
unfolding record_if record_error
record_if-pending none t = refl
record_if-pending (some err) t = refl

read-pending :
    (read_q s : Text) (err : Option Text) (t : TrackedConn)
    → (read read_q s err t).pending ≡ line_length t.pending s
unfolding read record_error
read-pending read_q s err t =
    let p = pending_after (last_index b'\n' s) s t.pending in
    let t' = record t { pending = p } in
    record_if-pending err (if leb read_q_limit p then record_error read_q t' else t')
    ∙ elim (Bool-cases (leb read_q_limit p)) [
      | inl e ↦ rw e (pending_after_lem s t.pending)
      | inr e ↦ rw e (pending_after_lem s t.pending)
    ]

-- However the bytes of a socket are cut into reads, and whatever is written between them, pending
-- is the length of the line that has not ended, over all the bytes read.
pub run-pending :
    (read_q : Text) (ops : List Op) (t : TrackedConn)
    → (run read_q ops t).pending ≡ line_length t.pending (bytes_read ops)
unfolding run write
run-pending read_q [] t = refl
run-pending read_q (reads s err ∷ ops) t =
    run-pending read_q ops (read read_q s err t)
    ∙ ap (λ p. line_length p (bytes_read ops)) (read-pending read_q s err t)
    ∙ sym (line_length-append t.pending s (bytes_read ops))
run-pending read_q (writes err ∷ ops) t =
    run-pending read_q ops (write err t)
    ∙ ap (λ p. line_length p (bytes_read ops)) (record_if-pending err t)

record_if-first :
    (err : Option Text) (t : TrackedConn) (e : Text)
    → t.first ≡ some e
    → (record_if err t).first ≡ some e
unfolding record_if record_error
record_if-first none t e h = h
record_if-first (some err) t e h = ap (λ f. some (first_error f err)) h

read-first :
    (read_q s : Text) (err : Option Text) (t : TrackedConn) (e : Text)
    → t.first ≡ some e
    → (read read_q s err t).first ≡ some e
unfolding read
read-first read_q s err t e h =
    let p = pending_after (last_index b'\n' s) s t.pending in
    let t' = record t { pending = p } in
    elim (Bool-cases (leb read_q_limit p)) [
      | inl l ↦
          rw l
            (record_if-first err (record_error read_q t') e (record_if-first (some read_q) t' e h))
      | inr l ↦ rw l (record_if-first err t' e h)
    ]

run-first :
    (read_q : Text) (ops : List Op) (t : TrackedConn) (e : Text)
    → t.first ≡ some e
    → (run read_q ops t).first ≡ some e
unfolding run write
run-first read_q [] t e h = h
run-first read_q (reads s err ∷ ops) t e h =
    run-first read_q ops (read read_q s err t) e (read-first read_q s err t e h)
run-first read_q (writes err ∷ ops) t e h =
    run-first read_q ops (write err t) e (record_if-first err t e h)

read_too_long :
    (read_q s : Text) (err : Option Text) (t : TrackedConn)
    → t.first ≡ none
    → read_q_limit ≤ line_length t.pending s
    → (read read_q s err t).first ≡ some read_q
unfolding read record_error
read_too_long read_q s err t h long =
    let p = pending_after (last_index b'\n' s) s t.pending in
    let l : leb read_q_limit p ≡ true = ground (arith, pending_after_lem s t.pending) in
    rw l (
      record_if-first err (record_error read_q (record t { pending = p })) read_q
        (ap (λ f. some (first_error f read_q)) h))

-- If a read of a socket without an error leaves a line of 8704 bytes or more that has not ended,
-- its first error is ErrReadQ, whatever is read and written later.
pub run_too_long :
    (read_q s : Text) (err : Option Text) (ops : List Op) (t : TrackedConn)
    → t.first ≡ none
    → read_q_limit ≤ line_length t.pending s
    → (run read_q (reads s err ∷ ops) t).first ≡ some read_q
unfolding run
run_too_long read_q s err ops t h long =
    run-first read_q ops (read read_q s err t) read_q (read_too_long read_q s err t h long)
