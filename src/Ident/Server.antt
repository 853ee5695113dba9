-- ===== src/Ident/Server.antt =====
-- handle and serveIdent: what one connection is sent, and how many are served at once.
use lierc.Base.{
  ℕ, zero, suc, ◌+◌, ◌-◌, ◌≤◌, Bool, true, false, ◌||◌, List, [], ◌∷◌, arith, ltb, ◌==◌,
  if◌then◌else◌, Text, length, All,
}
use lierc.Unicode.{Unicode, IsUnicode, trim_right}
use lierc.Ident.{Found, max_queries, reply}
use lierc.Ident.Reply.{IsLine, reply-IsLine}

-- A read from the connection: a line, with whether the reply to it can be written, or an error (a
-- line that is too long, a deadline that has passed, the end of the input).
pub data Read : Type 0 where
  line : Text → Bool → Read
  ends : Read

abbrev is_line_ending : ℕ → Bool
is_line_ending b = b == b'\r' || b == b'\n'

module _ ⦃u : Unicode⦄ where
  -- The loop of handle, over the rounds left: the replies it writes.
  unfoldable pub answers : ℕ → (Text → Text → Found) → List Read → List Text
  unfolding trim_right
  answers zero find reads = []
  answers (suc n) find [] = []
  answers (suc n) find (ends ∷ reads) = []
  answers (suc n) find (line l written ∷ reads) =
      let more = answers n find reads in
      reply (trim_right is_line_ending l) find ∷ (if written then more else [])

  unfoldable pub handle : (Text → Text → Found) → List Read → List Text
  unfolding answers
  handle find reads = answers max_queries find reads

  answers-All :
      IsUnicode u
      → (n : ℕ) (find : Text → Text → Found) (reads : List Read)
      → All IsLine (answers n find reads) × (length (answers n find reads) ≤ n)
  unfolding answers
  answers-All ok zero find reads = (tt, omega arith)
  answers-All ok (suc n) find [] = (tt, omega arith)
  answers-All ok (suc n) find (ends ∷ reads) = (tt, omega arith)
  answers-All ok (suc n) find (line l true ∷ reads) =
      let rest = answers-All ok n find reads in
      ((reply-IsLine ok _ find, rest.0), omega (arith, rest.1))
  answers-All ok (suc n) find (line l false ∷ reads) = ((reply-IsLine ok _ find, tt), omega arith)

  -- Whatever a client sends, and however its reads end, it is sent at most ten replies, each of them
  -- one line.
  pub handle-All :
      IsUnicode u
      → (find : Text → Text → Found) (reads : List Read)
      → All IsLine (handle find reads) × (length (handle find reads) ≤ max_queries)
  unfolding handle
  handle-All ok find reads = answers-All ok max_queries find reads

-- serveIdent: a connection is accepted, or one that is being handled ends. The slots taken are
-- counted; a connection past the last slot is closed.
pub data Event : Type 0 where
  accepted finished : Event

unfoldable pub serve : ℕ → ℕ → Event → ℕ
serve most taken accepted = if ltb taken most then taken + 1 else taken
serve most taken finished = taken - 1

unfoldable pub serve_all : ℕ → ℕ → List Event → ℕ
unfolding serve
serve_all most taken [] = taken
serve_all most taken (e ∷ es) = serve_all most (serve most taken e) es

-- If no more connections than the maximum are handled, then so it is after any connections that
-- come and go.
pub serve_all-le :
    (most taken : ℕ) (es : List Event) → taken ≤ most → serve_all most taken es ≤ most
unfolding serve_all
serve_all-le most taken [] h = h
serve_all-le most taken (accepted ∷ es) h =
    serve_all-le most (serve most taken accepted) es (ground arith)
serve_all-le most taken (finished ∷ es) h =
    serve_all-le most (serve most taken finished) es (ground arith)
