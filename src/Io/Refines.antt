-- ===== src/Io/Refines.antt =====
-- The cursor against its abstract view, the bytes that are still to be read, over whole runs of
-- requests.
use parity_wasm.Base.{
  ℕ, ◌+◌, ◌≤◌, ◌<◌, ◌≡◌, List, [], ◌∷◌, ok, err, length, take, drop, leb, if◌then◌else◌, drop-drop,
  arith, Outcome, ◌>>=◌, Bool-cases, inl, inr,
}
use parity_wasm.Io.{Cursor, IoError, cursor_new, read, unexpected_eof}

-- One request after another, until one fails.
abbrev pub read_all : List ℕ → Cursor → Outcome IoError (List (List ℕ) × Cursor)
read_all [] c = ok ([], c)
read_all (n ∷ ns) c = do (part, c) ← read n c; (parts, c) ← read_all ns c; ok (part ∷ parts, c)

abbrev pub total : List ℕ → ℕ
total [] = 0
total (n ∷ ns) = n + total ns

-- The bytes, cut into parts of the given lengths.
abbrev pub parts_of : List ℕ → List ℕ → List (List ℕ)
parts_of [] bs = []
parts_of (n ∷ ns) bs = take n bs ∷ parts_of ns (drop n bs)

abbrev pub at_position : List ℕ → ℕ → Cursor
at_position inner pos = record { inner = inner; pos = pos }

module _ (bs : List ℕ) where
  read_one :
      (n p : ℕ)
      → p + n ≤ length bs
      → read n (at_position bs p) ≡ ok (take n (drop p bs), at_position bs (p + n))
  unfolding read
  read_one n p k = ground arith

  read_eof :
      (n p : ℕ) → p ≤ length bs → length bs < p + n → read n (at_position bs p) ≡ err unexpected_eof
  unfolding read
  read_eof n p h k = ground arith

  reads_from :
      (ns : List ℕ) (p : ℕ)
      → p ≤ length bs
      → read_all ns (at_position bs p) ≡ (
          if leb (p + total ns) (length bs)
          then ok (parts_of ns (drop p bs), at_position bs (p + total ns))
          else err unexpected_eof)
  reads_from [] p h = ground arith
  reads_from (n ∷ ns) p h = elim (Bool-cases (leb (p + n) (length bs))) [
    | inl enough ↦
        rw (read_one n p (ground arith), reads_from ns (p + n) (ground arith), drop-drop p n bs)
          (ground arith)
    | inr short ↦ rw (read_eof n p h (ground arith)) (ground arith)
  ]

-- Any run of requests to a new cursor: if the slice has the bytes of all of them, each gets those that
-- follow what the requests before it got, and the position is their sum; else one of them fails as
-- `UnexpectedEof`, and no other error or panic comes.
pub reads_lem :
    (ns : List ℕ) (bs : List ℕ)
    → read_all ns (cursor_new bs) ≡ (
        if leb (total ns) (length bs)
        then ok (parts_of ns bs, at_position bs (total ns))
        else err unexpected_eof)
unfolding cursor_new
reads_lem ns bs =
    let start : 0 + total ns ≡ total ns = omega arith in
    rw start at (reads_from bs ns 0 (omega arith))
