-- ===== src/HostCompat/Lines.antt =====
-- getline reads a line, within its buffer.
use android_sdk_custom.Prelude.{
  ℕ, ◌+◌, ◌*◌, ◌<◌, ◌≡◌, refl, List, [], ◌∷◌, ◌++◌, Option, none, some, true, false, arith, length,
  length-append, Bool-cases, Option-cases, inl, inr, ◌⊎◌, append_assoc, ◌==◌, leb, ap, ◌∙◌, sym,
}
use android_sdk_custom.Strl.{store}
use android_sdk_custom.Strl.Copy.{store-at}
use android_sdk_custom.HostCompat.{
  first_buffer, getline, Buffer, Stop, grow, read_loop, finish_line,
}

-- A buffer that is grown keeps its bytes and has the size asked for.
abbrev pub Extends : (List ℕ → ℕ → Option (List ℕ)) → Type 0
Extends realloc =
    (m grown : List ℕ) (n : ℕ)
    → realloc m n ≡ some grown
    → (more : List ℕ) × (grown ≡ m ++ more) × (length grown ≡ n)

-- The end of the file, or a newline.
abbrev pub EndsLine : List ℕ → List ℕ → Type 0
EndsLine line rest = (rest ≡ []) ⊎ ((start : List ℕ) × (line ≡ start ++ b'\n' ∷ []))

-- What the loop has read behind the bytes pre: a part of the file that ends a line or the file, with
-- room behind it.
pub record Read (pre file : List ℕ) (s : Stop) : Type 0 where
  pub line : List ℕ
  pub room : List ℕ
  pub x : ℕ
  pub bytes : s.buffer.bytes ≡ pre ++ (line ++ x ∷ room)
  pub size : s.buffer.n ≡ length s.buffer.bytes
  pub pos : s.pos ≡ length pre + length line
  pub split : file ≡ line ++ s.rest
  pub ends : EndsLine line s.rest

-- Room for two bytes behind pre.
record Grown (pre : List ℕ) (g : Buffer) : Type 0 where
  y : ℕ
  x : ℕ
  room : List ℕ
  bytes : g.bytes ≡ pre ++ x ∷ y ∷ room
  size : g.n ≡ length g.bytes

roomy :
    (pre : List ℕ) (x : ℕ) (room : List ℕ) (g : Buffer)
    → g.bytes ≡ pre ++ x ∷ room
    → g.n ≡ length g.bytes
    → length pre + 1 < g.n
    → Grown pre g
roomy pre x [] g e q lt = absurd (omega (arith, ap length e, length-append pre (x ∷ [])))
roomy pre x (y ∷ room) g e q lt = record { y = y; x = x; room = room; bytes = e; size = q }

module _ (realloc : List ℕ → ℕ → Option (List ℕ)) (law : Extends realloc) where
  -- There is a size for which realloc gives nothing.
  abbrev pub Fails : Type 0
  Fails = (m : List ℕ) × (n : ℕ) × (realloc m n ≡ none)

  grow-Grown :
      (pre : List ℕ) (x : ℕ) (room : List ℕ) (b : Buffer)
      → b.bytes ≡ pre ++ x ∷ room
      → b.n ≡ length b.bytes
      → let (g, ok) = grow realloc (length pre) b in
        ((ok ≡ false) × Fails) ⊎ ((ok ≡ true) × Grown pre g)
  unfolding grow
  grow-Grown pre x room b e q =
      let size : length b.bytes ≡ length pre + 1 + length room =
        omega (arith, ap length e, length-append pre (x ∷ room)) in
      elim (Bool-cases (leb b.n (length pre + 1))) [
        | inr c ↦ rw (c, grow) (inr (refl, roomy pre x room b e q (ground arith)))
        | inl c ↦ elim (Option-cases (realloc b.bytes (b.n * 2))) [
          | inl r ↦ rw (c, r, grow) (inl (refl, (b.bytes, b.n * 2, r)))
          | inr (grown, r) ↦
              let (more, f, l) = law b.bytes grown (b.n * 2) r in
              rw (c, r, grow)
                (inr (
                  refl,
                  roomy pre x (room ++ more) (record { bytes = grown; n = b.n * 2 })
                      (f ∙ ap (λ m. m ++ more) e ∙ append_assoc pre (x ∷ room) more) (sym l)
                      (omega (arith, size, q)),
                ))
        ]
      ]

  Outcome : List ℕ → List ℕ → Option Stop → Type 0
  Outcome pre file o =
      (s : Stop) × (o ≡ some s) × (((s.ok ≡ false) × Fails) ⊎ ((s.ok ≡ true) × Read pre file s))

  extend :
      (pre : List ℕ) (c : ℕ) (file : List ℕ) (s : Stop)
      → Read (pre ++ c ∷ []) file s
      → Read pre (c ∷ file) s
  extend pre c file s r = record {
    line = c ∷ r.line;
    room = r.room;
    x = r.x;
    bytes = r.bytes ∙ append_assoc pre (c ∷ []) (r.line ++ r.x ∷ r.room);
    size = r.size;
    pos = omega (arith, r.pos, length-append pre (c ∷ []));
    split = ap (◌∷◌ c) r.split;
    ends = elim r.ends [ inl e ↦ inl e | inr (start, e) ↦ inr (c ∷ start, ap (◌∷◌ c) e) ];
  }

  extend-Outcome :
      (pre : List ℕ) (c : ℕ) (file : List ℕ) (o : Option Stop)
      → Outcome (pre ++ c ∷ []) file o
      → Outcome pre (c ∷ file) o
  unfolding Outcome
  extend-Outcome pre c file o (s, e, inl f) = (s, e, inl f)
  extend-Outcome pre c file o (s, e, inr (t, r)) = (s, e, inr (t, extend pre c file s r))

  read_loop-Outcome :
      (file : List ℕ) (pos : ℕ) (pre : List ℕ) (x : ℕ) (room : List ℕ) (b : Buffer)
      → pos ≡ length pre
      → b.bytes ≡ pre ++ x ∷ room
      → b.n ≡ length b.bytes
      → Outcome pre file (read_loop realloc file pos b)
  unfolding read_loop Outcome
  read_loop-Outcome [] pos pre x room b p e q = (
    _,
    refl,
    inr (
      refl,
      record {
        line = [];
        room = room;
        x = x;
        bytes = e;
        size = q;
        pos = omega (arith, p);
        split = refl;
        ends = inl refl;
      },
    ),
  )
  read_loop-Outcome (c ∷ file) pos pre x room b p e q = elim (grow-Grown pre x room b e q) [
    | inl (f, m) ↦
        let stop : Stop = record {
          buffer = (grow realloc (length pre) b).0;
          rest = file;
          pos = length pre;
          ok = false;
        } in
        (stop, rw (p, f, read_loop) refl, inl (refl, m))
    | inr (t, g) ↦
        let grown = (grow realloc (length pre) b).0 in
        let stored : store grown.bytes (length pre) c ≡ some (pre ++ c ∷ g.y ∷ g.room) =
          rw g.bytes (store-at pre g.x (g.y ∷ g.room) c) in
        let after : Buffer = record grown { bytes = pre ++ c ∷ g.y ∷ g.room } in
        let size : after.n ≡ length after.bytes = omega (
          arith,
          g.size,
          ap length g.bytes,
          length-append pre (g.x ∷ g.y ∷ g.room),
          length-append pre (c ∷ g.y ∷ g.room),
        ) in
        elim (Bool-cases (c == b'\n')) [
          | inl newline ↦
              let same : c ≡ b'\n' = ground arith in
              let stop : Stop = record {
                buffer = after;
                rest = file;
                pos = length pre + 1;
                ok = true;
              } in
              (
                stop,
                rw (p, t, stored, newline, read_loop) refl,
                inr (
                  refl,
                  record {
                    line = c ∷ [];
                    room = g.room;
                    x = g.y;
                    bytes = refl;
                    size = size;
                    pos = omega arith;
                    split = refl;
                    ends = inr ([], ap (λ v. v ∷ []) same);
                  },
                ),
              )
          | inr other ↦
              rw (p, t, stored, other, read_loop)
                (extend-Outcome pre c file _ (
                  read_loop-Outcome file (length pre + 1) (pre ++ c ∷ []) g.y g.room after
                    (omega (arith, length-append pre (c ∷ [])))
                    (sym (append_assoc pre (c ∷ []) (g.y ∷ g.room))) size))
        ]
  ]

  -- A line in the buffer, with its length and a terminator.
  pub record Delivered (file : List ℕ) (b : Buffer) (rest : List ℕ) (n : ℕ) : Type 0 where
    pub line : List ℕ
    pub room : List ℕ
    pub bytes : b.bytes ≡ line ++ 0 ∷ room
    pub size : b.n ≡ length b.bytes
    pub count : n ≡ length line
    pub split : file ≡ line ++ rest
    pub ends : EndsLine line rest

  -- What getline gives: -1 at the end of the file or without memory, or a line.
  abbrev pub Got : List ℕ → Buffer × List ℕ × Option ℕ → Type 0
  Got file (b, rest, none) = (file ≡ []) ⊎ Fails
  Got file (b, rest, some n) = Delivered file b rest n

  nothing_read :
      (line rest file : List ℕ)
      → length line ≡ 0
      → file ≡ line ++ rest
      → EndsLine line rest
      → file ≡ []
  nothing_read [] rest file z e (inl q) = e ∙ q
  nothing_read [] rest file z e (inr (start, q)) =
      absurd (omega (arith, ap length q, length-append start (b'\n' ∷ [])))
  nothing_read (c ∷ line) rest file z e d = absurd (omega arith)

  finish_line-Got :
      (file : List ℕ) (s : Stop)
      → ((s.ok ≡ false) × Fails) ⊎ ((s.ok ≡ true) × Read [] file s)
      → (r : Buffer × List ℕ × Option ℕ) × (finish_line realloc s ≡ some r) × Got file r
  unfolding finish_line
  finish_line-Got file s (inl (f, m)) = ((s.buffer, s.rest, none), rw (f, finish_line) refl, inr m)
  finish_line-Got file s (inr (t, r)) = elim (Bool-cases (s.pos == 0)) [
    | inl z ↦ (
      (s.buffer, s.rest, none),
      rw (t, z, finish_line) refl,
      inl (nothing_read r.line s.rest file (ground (arith, r.pos)) r.split r.ends),
    )
    | inr z ↦
        let number : s.pos ≡ length r.line = omega (arith, r.pos) in
        let stored : store s.buffer.bytes s.pos 0 ≡ some (r.line ++ 0 ∷ r.room) =
          rw (r.bytes, number) (store-at r.line r.x r.room 0) in
        (
          (record s.buffer { bytes = r.line ++ 0 ∷ r.room }, s.rest, some s.pos),
          rw (t, z, stored, finish_line) refl,
          record {
            line = r.line;
            room = r.room;
            bytes = refl;
            size = omega (
              arith,
              r.size,
              ap length r.bytes,
              length-append r.line (r.x ∷ r.room),
              length-append r.line (0 ∷ r.room),
            );
            count = number;
            split = r.split;
            ends = r.ends;
          },
        )
  ]

  -- From a buffer that getline starts with, of the size that it counts, it always has a result and
  -- writes nothing outside of the buffer. Either it returns -1, and the file is at its end or realloc
  -- has failed; or it gives the first bytes of the file, which end with a newline or with the
  -- file, with their number and a terminator behind them in a buffer of the size counted, and leaves
  -- the rest of the file.
  pub getline_lem :
      (malloc : ℕ → Option (List ℕ)) (lineptr : Option Buffer) (file : List ℕ) (b : Buffer) (x : ℕ)
      (room : List ℕ)
      → first_buffer malloc lineptr ≡ some b
      → b.bytes ≡ x ∷ room
      → b.n ≡ length b.bytes
      → (r : Buffer × List ℕ × Option ℕ) × (getline realloc malloc lineptr file
          ≡ some (some r.0, r.1, r.2))
        × Got file r
  unfolding getline Outcome
  getline_lem malloc lineptr file b x room f e q =
      let (s, l, o) = read_loop-Outcome file 0 [] x room b refl e q in
      let (r, g, k) = finish_line-Got file s o in (r, rw (f, l, g, getline) refl, k)
