-- ===== src/Comm/Transport/Frames.antt =====
-- comm/p2p/util.go: one message to a line.
use mathlib.Core.List.{append_assoc}
use sprinter_signing.Base.{
  ℕ, ◌≡◌, refl, ap, ◌∙◌, false, [], ◌∷◌, ◌++◌, arith, ◌==◌, if◌then◌else◌, Result, ok, err,
  contains,
}
use sprinter_signing.Base.Text.{Text}

pub data ReadError : Type 0 where
  end_of_stream : ReadError

abbrev pub newline : ℕ
newline = 10

-- `bufio.Reader.ReadString('\n')`: the bytes up to the first newline, with it, and those behind.
unfoldable pub read_string : Text → Result ReadError (Text × Text)
read_string [] = err end_of_stream
read_string (c ∷ cs) =
    let rest = read_string cs in
    if c == newline
    then ok (c ∷ [], cs)
    else elim rest [ ok (line, behind) ↦ ok (c ∷ line, behind) | err e ↦ err e ]

-- `strings.Trim(s, "\n")`
unfoldable pub trim_front : Text → Text
trim_front [] = []
trim_front (c ∷ cs) = if c == newline then trim_front cs else c ∷ cs

unfoldable pub trim_back : Text → Text
trim_back [] = []
trim_back (c ∷ cs) = elim (trim_back cs) [
  | [] ↦ if c == newline then [] else c ∷ []
  | d ∷ ds ↦ c ∷ d ∷ ds
]

unfoldable pub trim_newlines : Text → Text
unfolding trim_front trim_back
trim_newlines t = trim_back (trim_front t)

-- `ReadStream`: the message and what is left of the stream. A line is never empty, so the test of the
-- source for an empty line never holds.
unfoldable pub frame : Result ReadError (Text × Text) → Result ReadError (Text × Text)
frame (err e) = err e
frame (ok ([], behind)) = err end_of_stream
frame (ok (c ∷ line, behind)) = ok (trim_newlines (c ∷ line), behind)

unfoldable pub read_stream : Text → Result ReadError (Text × Text)
unfolding read_string frame
read_stream t = frame (read_string t)

-- `WriteStream`, when the writer takes all the bytes.
unfoldable pub write_stream : Text → Text
write_stream msg = msg ++ newline ∷ []

read_string-line :
    (msg rest : Text)
    → contains msg newline ≡ false
    → read_string (msg ++ newline ∷ rest) ≡ ok (msg ++ newline ∷ [], rest)
unfolding read_string
read_string-line [] rest h = refl
read_string-line (c ∷ cs) rest h = ground (arith, read_string-line cs rest)

trim_front-line :
    (c : ℕ) (cs : Text)
    → contains (c ∷ cs) newline ≡ false
    → trim_front (c ∷ cs ++ newline ∷ []) ≡ c ∷ cs ++ newline ∷ []
unfolding trim_front
trim_front-line c cs h = ground arith

trim_back-line : (msg : Text) → contains msg newline ≡ false → trim_back (msg ++ newline ∷ []) ≡ msg
unfolding trim_back
trim_back-line [] h = refl
trim_back-line (c ∷ []) h = ground arith
trim_back-line (c ∷ d ∷ ds) h = rw (trim_back-line (d ∷ ds) (ground arith)) refl

trim_newlines-line :
    (msg : Text) → contains msg newline ≡ false → trim_newlines (msg ++ newline ∷ []) ≡ msg
unfolding trim_newlines
trim_newlines-line [] h = refl
trim_newlines-line (c ∷ cs) h = rw (trim_front-line c cs h) (trim_back-line (c ∷ cs) h)

-- Reading what was written gives the message back, whatever follows it on the stream, if the message
-- holds no newline.
pub read_stream-write_stream :
    (msg rest : Text)
    → contains msg newline ≡ false
    → read_stream (write_stream msg ++ rest) ≡ ok (msg, rest)
unfolding read_stream write_stream trim_newlines
read_stream-write_stream [] rest h = refl
read_stream-write_stream (c ∷ cs) rest h =
    ap frame (
      ap read_string (append_assoc (c ∷ cs) (newline ∷ []) rest) ∙ read_string-line (c ∷ cs) rest h)
    ∙ ap (λ m. ok (m, rest)) (trim_newlines-line (c ∷ cs) h)

pub read_stream-empty : read_stream [] ≡ err end_of_stream
unfolding read_stream
read_stream-empty = refl
