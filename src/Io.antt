-- ===== src/Io.antt =====
-- src/io.rs: the errors of a read, and the reader that remembers its position.
-- A byte slice is the list of its bytes; `usize` is a number (no slice is longer than its range).
pub mod Refines
use parity_wasm.Base.{
  ℕ, ◌+◌, ◌-◌, List, ltb, if◌then◌else◌, length, take, drop, Outcome, ok, err, panic,
}

-- `IoError(std::io::Error)`, which only a reader of the standard library returns, is left out.
pub data IoError : Type 0 where
  trailing_data unexpected_eof invalid_data : IoError

pub record Cursor : Type 0 where
  pub inner : List ℕ
  pub pos : ℕ

pub cursor_new : List ℕ → Cursor
cursor_new inner = record { inner = inner; pos = 0 }

pub position : Cursor → ℕ
position c = c.pos

-- `read(&mut buf)` with a buffer of `requested` bytes. The subtraction panics if it would underflow.
unfoldable pub read : ℕ → Cursor → Outcome IoError (List ℕ × Cursor)
read requested c =
    if ltb (length c.inner) c.pos
    then panic
    else (if ltb (length c.inner - c.pos) requested
        then err unexpected_eof
        else ok (take requested (drop c.pos c.inner), record c { pos = c.pos + requested }))
