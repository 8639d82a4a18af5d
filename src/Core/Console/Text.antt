-- ===== src/Core/Console/Text.antt =====
-- SIN and SOUT of merry/merry_core.c: bytes from stdin to the data memory and from there to stdout.
use merry_v.Common.{
  ℕ, zero, suc, ◌+◌, ◌-◌, ◌%◌, ◌<◌, ◌≡◌, refl, sym, ap, ◌∙◌, true, false, none, some, List, [], ◌∷◌,
  ◌++◌, arith, length, take, drop, wrap,
}
use merry_v.Block.Runs.{blit}
use merry_v.DMemory.{page_size}
use merry_v.DMemory.Bytes.{get_bytes, write_bytes}
use merry_v.DMemory.Inv.{IsValid, AllBytes}
use merry_v.DMemory.Flat.{flat, size}
use merry_v.DMemory.Copies.{run_fits}
use merry_v.DMemory.CopyIn.{write_bytes-fits, write_bytes-overrun, get_bytes-write_bytes}
use merry_v.Core.{Core, reg_mc, address48, with_inst, stop_with}
use merry_v.Core.Console.{Stdio, read_chars, sin, sout, until_nul}

-- `getchar` takes the bytes of stdin one by one, and is at EOF behind the last.
pub record Reads (io : Stdio) : Type 0 where
  pub next : (b : ℕ) (rest : List ℕ) → io.getchar (b ∷ rest) ≡ (some b, rest)
  pub eof : io.getchar [] ≡ (none, [])

-- The next `n` bytes of stdin, each 255 behind its end.
abbrev pub line : ℕ → List ℕ → List ℕ
line zero input = []
line (suc n) [] = 255 ∷ line n []
line (suc n) (b ∷ input) = b ∷ line n input

pub length-line : (n : ℕ) (input : List ℕ) → length (line n input) ≡ n
length-line zero input = refl
length-line (suc n) [] = ap suc (length-line n [])
length-line (suc n) (b ∷ input) = ap suc (length-line n input)

line-AllBytes : (n : ℕ) (input : List ℕ) → AllBytes input → AllBytes (line n input)
line-AllBytes zero input h = tt
line-AllBytes (suc n) [] h = (omega arith, line-AllBytes n [] tt)
line-AllBytes (suc n) (b ∷ input) h = (h.0, line-AllBytes n input h.1)

drop-nil : (n : ℕ) → drop {A = ℕ} n [] ≡ []
drop-nil zero = refl
drop-nil (suc n) = refl

module _ {io : Stdio} (reads : Reads io) where
  -- The loop of SIN takes the line.
  read_chars-line :
      (n : ℕ) (input : List ℕ)
      → AllBytes input
      → read_chars io n input ≡ (line n input, drop n input)
  unfolding read_chars
  read_chars-line zero input h = refl
  read_chars-line (suc n) [] h =
      rw (reads.eof, read_chars-line n [] tt) (ap (λ rest. (255 ∷ line n [], rest)) (drop-nil n))
  read_chars-line (suc n) (b ∷ input) h =
      let small : b % 256 ≡ b = omega (arith, h.0) in
      rw (reads.next, read_chars-line n input h.1, small) refl

  -- A core with a valid data memory, where the run of Mc bytes at the address fits and malloc
  -- succeeds, reads as many bytes of stdin with SIN.
  pub sin-fits :
      (c : Core)
      → let len = c.registers reg_mc in
        let a = address48 c.current_inst in
        let out = write_bytes c.data_mem a (some (line len c.input)) in
        AllBytes c.input
        → IsValid c.data_mem
        → run_fits c.data_mem a len ≡ true
        → io.malloc_ok len ≡ true
        → sin io c ≡ record c { input = drop len c.input; data_mem = out.1 }
  unfolding sin
  sin-fits c bytes v fit room =
      let len = c.registers reg_mc in
      let a = address48 c.current_inst in
      let (done, _, _, _) =
        write_bytes-fits a (line len c.input) v (line-AllBytes len c.input bytes) (omega arith)
          (rw length-line fit) in
      rw (room, read_chars-line len c.input bytes, done) refl

  -- On a valid data memory where the run of Mc bytes at the address fits, SIN and then SOUT of
  -- the same address print the next Mc bytes of stdin up to the first NUL, where each byte
  -- behind the end of stdin is 255, if malloc succeeds and getchar takes the bytes of stdin one
  -- by one. The core goes on and its registers are as they were.
  pub sout-sin :
      (c : Core) (inst : ℕ)
      → let len = c.registers reg_mc in
        let c' = sout io (with_inst inst (sin io c)) in
        AllBytes c.input
        → IsValid c.data_mem
        → run_fits c.data_mem (address48 c.current_inst) len ≡ true
        → address48 inst ≡ address48 c.current_inst
        → io.malloc_ok len ≡ true
        → io.malloc_ok (wrap (len + 1)) ≡ true
        → (c'.output ≡ c.output ++ until_nul (line len c.input))
          × (c'.input ≡ drop len c.input)
          × (c'.registers ≡ c.registers)
          × (c'.stop_running ≡ c.stop_running)
  unfolding sout
  sout-sin c inst bytes v fit same room room' =
      let len = c.registers reg_mc in
      let a = address48 c.current_inst in
      let text = line len c.input in
      let m' = (write_bytes c.data_mem a (some text)).1 in
      let back : get_bytes true m' a len ≡ (some text, m') =
        ap (get_bytes true m' a) (sym (length-line len c.input))
        ∙ get_bytes-write_bytes a text v (line-AllBytes len c.input bytes) (omega arith)
            (rw length-line fit) in
      rw (sin-fits c bytes v fit room, same, room', back) (refl, refl, refl, refl)

  -- A run of bytes that starts inside the data memory and leaves it stops the core in SIN, when
  -- all Mc bytes are taken from stdin and those up to the end of the first page are in the memory.
  pub sin-overrun :
      (c : Core)
      → let len = c.registers reg_mc in
        let a = address48 c.current_inst in
        let c' = sin io c in
        AllBytes c.input
        → IsValid c.data_mem
        → a < size c.data_mem
        → run_fits c.data_mem a len ≡ false
        → io.malloc_ok len ≡ true
        → (c'.stop_running ≡ true)
          × (c'.input ≡ drop len c.input)
          × (c'.registers ≡ c.registers)
          × ((j : ℕ)
              → flat c'.data_mem j
                ≡ blit (flat c.data_mem) a (take (page_size - a % page_size) (line len c.input)) j)
  unfolding sin stop_with
  sin-overrun c bytes v here no_fit room =
      let len = c.registers reg_mc in
      let a = address48 c.current_inst in
      let (failed, written, _) =
        write_bytes-overrun a (line len c.input) v (omega arith) here (rw length-line no_fit) in
      rw (room, read_chars-line len c.input bytes, failed) (refl, refl, refl, written)
