-- ===== src/Elements/Codec.antt =====
-- Readers and writers over lists of bytes, and the round trip of one with the other.
--
-- A deserializer takes the bytes that its reader has left, as a `Cursor` has those past its position,
-- and returns those that it leaves; an error loses them, as `?` does. A serializer returns the bytes
-- that it adds to its `Vec<u8>`, which takes every write.
use parity_wasm.Base.{
  ℕ, ◌<◌, ◌≡◌, refl, List, [], ◌∷◌, ◌++◌, append_assoc, lt→ltb, le→ltb, ◌≤◌, ltb, if◌then◌else◌,
  length, take, drop, Option, none, some, Outcome, ok, err, panic, out_of_fuel, arith,
  take-length_append, drop-length_append, length-append,
}
use parity_wasm.Elements.Error.{Error, eof}

abbrev pub Bytes : Type 0
Bytes = List ℕ

abbrev pub IsByte : ℕ → Type 0
IsByte b = b < 256

abbrev pub Reader {ℓ} : Type ℓ → Type ℓ
Reader A = Bytes → Outcome Error (A × Bytes)

abbrev pub pure {ℓ} : {A : Type ℓ} → A → Reader A
pure a src = ok (a, src)

abbrev pub fail {ℓ} : {A : Type ℓ} → Error → Reader A
fail e src = err e

-- What `ok_or(e)?` does.
abbrev pub ok_or {ℓ} : {A : Type ℓ} → Option A → Error → Reader A
ok_or none e src = err e
ok_or (some a) e src = ok (a, src)

module _ {ℓ κ} {A : Type ℓ} {B : Type κ} where
  abbrev pub after : Outcome Error (A × Bytes) → (A → Reader B) → Outcome Error (B × Bytes)
  after (ok (a, rest)) f = f a rest
  after (err e) f = err e
  after panic f = panic
  after out_of_fuel f = out_of_fuel

  infixl 1 ◌>>=◌ ◌>>◌
  abbrev pub ◌>>=◌ : Reader A → (A → Reader B) → Reader B
  ◌>>=◌ m f src = after (m src) f

  abbrev pub ◌>>◌ : Reader A → Reader B → Reader B
  ◌>>◌ m k src = after (m src) (λ _. k)

  -- Inversion of a successful chain of reads.
  pub after-eq-ok :
      (m : Outcome Error (A × Bytes)) (f : A → Reader B) {p : B × Bytes}
      → after m f ≡ ok p
      → (a : A) × (rest : Bytes) × (m ≡ ok (a, rest)) × (f a rest ≡ ok p)
  after-eq-ok (ok (a, rest)) f h = (a, rest, refl, h)
  after-eq-ok (err e) f h = cc
  after-eq-ok panic f h = cc
  after-eq-ok out_of_fuel f h = cc

-- `reader.read(&mut buf)?` with a buffer of `n` bytes.
unfoldable pub read : ℕ → Reader Bytes
read n src = if ltb (length src) n then err eof else ok (take n src, drop n src)

-- `reader.read(&mut u8buf)?` with one byte.
abbrev pub read_u8 : Reader ℕ
read_u8 [] = err eof
read_u8 (b ∷ rest) = ok (b, rest)

abbrev pub Written : Type 0
Written = Outcome Error Bytes

-- One write after another.
infixr 6 ◌⊹◌
abbrev pub ◌⊹◌ : Written → Written → Written
ok xs ⊹ ok ys = ok (xs ++ ys)
ok xs ⊹ err e = err e
ok xs ⊹ panic = panic
ok xs ⊹ out_of_fuel = out_of_fuel
err e ⊹ w = err e
panic ⊹ w = panic
out_of_fuel ⊹ w = out_of_fuel

-- `d` reads `a` off the bytes `bs` and leaves what follows them.
abbrev pub Reads {ℓ} : {A : Type ℓ} → Reader A → Bytes → A → Type ℓ
Reads d bs a = (rest : Bytes) → d (bs ++ rest) ≡ ok (a, rest)

module _ {ℓ κ} {A : Type ℓ} {B : Type κ} where
  pub Reads-bind :
      (d : Reader A) (k : A → Reader B) (bs cs : Bytes) (a : A) {b : B}
      → Reads d bs a
      → Reads (k a) cs b
      → Reads (d >>= k) (bs ++ cs) b
  Reads-bind d k bs cs a h g rest = rw (append_assoc, h (cs ++ rest)) (g rest)

-- The write `w` succeeds, and `d` reads `a` back off it.
pub record Restores {ℓ} {A : Type ℓ} (w : Written) (d : Reader A) (a : A) : Type ℓ where
  pub bytes : Bytes
  pub written : w ≡ ok bytes
  pub reads : Reads d bytes a

module _ {ℓ κ} {A : Type ℓ} {B : Type κ} where
  pub Restores-bind :
      {w v : Written} {d : Reader A} {a : A} {b : B} (k : A → Reader B)
      → Restores w d a
      → Restores v (k a) b
      → Restores (w ⊹ v) (d >>= k) b
  Restores-bind {d} {a} k p q = record {
    bytes = p.bytes ++ q.bytes;
    written = rw (p.written, q.written);
    reads = Reads-bind d k p.bytes q.bytes a p.reads q.reads;
  }

  -- The last read of a block.
  pub Restores-map :
      {w : Written} {d : Reader A} {a : A} {b : B} (k : A → Reader B)
      → Restores w d a
      → ((rest : Bytes) → k a rest ≡ ok (b, rest))
      → Restores w (d >>= k) b
  Restores-map k p last = record {
    bytes = p.bytes;
    written = p.written;
    reads = λ rest. rw (p.reads rest) (last rest);
  }

pub read-Reads : (bs : Bytes) → Reads (read (length bs)) bs bs
unfolding read
read-Reads bs rest =
    ground (arith, length-append bs rest, take-length_append bs rest, drop-length_append bs rest)

pub read-Restores : (bs : Bytes) (n : ℕ) → length bs ≡ n → Restores (ok bs) (read n) bs
read-Restores bs n h = record {
  bytes = bs;
  written = refl;
  reads = λ rest. rw (← h) (read-Reads bs rest);
}

pub read_short : (n : ℕ) (src : Bytes) → length src < n → read n src ≡ err eof
unfolding read
read_short n src h = rw (lt→ltb (length src) n h)

pub read_enough : (n : ℕ) (src : Bytes) → n ≤ length src → read n src ≡ ok (take n src, drop n src)
unfolding read
read_enough n src h = rw (le→ltb (length src) n h)
