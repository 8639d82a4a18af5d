-- ===== src/Reader/Loops.antt =====
-- The ends of the loops of `merry_reader_read_sections` in merry/merry_nreader.c.
use mathlib.Core.Path.{subst}
use merry_v.Common.{
  ℕ, zero, suc, ◌+◌, ◌-◌, ◌*◌, ◌/◌, ◌≤◌, ◌<◌, ◌≡◌, refl, Bool, true, false, none, some, List, [],
  ◌∷◌, arith, ◌==◌, ltb, if◌then◌else◌, Bool-cases, inl, inr, wrap, word_mod, length, length-drop,
  get_or, drop, update,
}
use merry_v.DMemory.{page_size}
use merry_v.Reader.{
  Reader, Host, Symbol, get_number, Section, SectionType, data_section, info, symd, other,
}
use merry_v.Reader.Load.{
  Copy, done, short, overrun, spinning, Fetched, got, too_short, behind_end, leaves, Place,
  copy_section, read_data, read_section, read_section_list, read_symbols,
}

-- A loop that started at `r` and reads `n` bytes has ended: with all of them taken from the file and a
-- page index that is at most one behind the last one of a page, with a failure, or with a write behind
-- the end of the table.
abbrev pub Ends : ℕ → Reader → Copy → Type 0
Ends n r (done r' p) = (p.current_index ≤ page_size + 1) × (length r'.f + n ≡ length r.f)
Ends n r short = Unit
Ends n r overrun = Unit
Ends n r spinning = true ≡ false

Ends-if :
    (b : Bool) (n : ℕ) (r : Reader) (x y : Copy)
    → (b ≡ true → Ends n r x)
    → (b ≡ false → Ends n r y)
    → Ends n r (if b then x else y)
Ends-if true n r x y p q = p refl
Ends-if false n r x y p q = q refl

-- What is read behind `m` bytes that were read already.
Ends-add :
    (m n k : ℕ) (r r' : Reader) (c : Copy)
    → m + n ≡ k
    → length r'.f + m ≡ length r.f
    → Ends n r' c
    → Ends k r c
Ends-add m n k r r' (done r'' p) sum taken e = (e.0, omega (arith, e.1))
Ends-add m n k r r' short sum taken e = tt
Ends-add m n k r r' overrun sum taken e = tt
Ends-add m n k r r' spinning sum taken e = e

Ends-read :
    (m n : ℕ) (r : Reader) (o : Fetched) (g : Reader → Copy)
    → ((r' : Reader) → o ≡ got r' → length r'.f + m ≡ length r.f)
    → ((r' : Reader) → length r'.f + m ≡ length r.f → Ends n r (g r'))
    → Ends n r (elim o [ too_short ↦ short | behind_end ↦ overrun | got r' ↦ g r' ])
Ends-read m n r (got r') g taken k = k r' (taken r' refl)
Ends-read m n r too_short g taken k = tt
Ends-read m n r behind_end g taken k = tt

read_data-length :
    (off n : ℕ) (r r' : Reader) → read_data off n r ≡ got r' → length r'.f + n ≡ length r.f
unfolding read_data
read_data-length off n r r' e = elim (Bool-cases (leaves (8 * r.data_page_count) (8 * off) n r)) [
  | inl out ↦ absurd (cc (rw out at e))
  | inr inside ↦ elim (Bool-cases (ltb (length r.f) n)) [
    | inl ends ↦ absurd (cc (rw (inside, ends) at e))
    | inr enough ↦
        subst
          (λ o. elim o [
            | too_short ↦ Unit
            | behind_end ↦ Unit
            | got x ↦ length x.f + n ≡ length r.f
          ])
          (rw (inside, enough) at e)
          (omega (arith, ground_le n (length r.f) enough, length-drop n r.f))
  ]
]
  where
    ground_le : (a b : ℕ) → ltb b a ≡ false → a ≤ b
    ground_le a b e = ground arith

copy_section-nothing :
    (fuel : ℕ) (p : Place) (r : Reader)
    → p.current_index ≤ page_size + 1
    → Ends 0 r (copy_section fuel 0 p r)
unfolding copy_section
copy_section-nothing zero p r le = (le, omega arith)
copy_section-nothing (suc fuel) p r le = (le, omega arith)

-- One round of the loop, if both of its continuations end.
copy_section-round :
    (fuel n : ℕ) (p : Place) (r : Reader)
    → p.current_index ≤ page_size + 1
    → ((r' : Reader)
        → let cap = wrap (page_size + word_mod - p.current_index) in
          cap < n
          → Ends (n - cap) r' (
              copy_section fuel
                (n - cap)
                (record { current_index = p.current_index + 1; current_off = 0 })
                r'))
    → Ends n r (copy_section (suc fuel) n p r)
unfolding copy_section
copy_section-round fuel n p r le next =
    let cap = wrap (page_size + word_mod - p.current_index) in
    let m = if ltb cap n then cap else n in
    Ends-if (n == 0) n r _ _ (λ e. (le, ground arith))
      (λ e.
        Ends-read m n r (read_data p.current_off m r) _ (read_data-length p.current_off m r)
          (λ r' taken.
            Ends-if (ltb cap n) n r _ _
              (λ more.
                Ends-add cap (n - cap) n r r' _ (ground arith) (ground arith)
                  (next r' (ground arith)))
              (λ last.
                Ends-add n 0 n r r' _ (omega arith) (ground arith) (
                  copy_section-nothing fuel (record p { current_off = p.current_off + n }) r' le))))

-- Behind the last page the room is taken to be as good as endless.
copy_section-behind :
    (fuel n : ℕ) (p : Place) (r : Reader)
    → n < word_mod
    → p.current_index ≡ page_size + 1
    → Ends n r (copy_section (suc fuel) n p r)
copy_section-behind fuel n p r small at =
    copy_section-round fuel n p r (omega arith) (λ r' more. absurd (omega arith))

-- At the last page index there is one round without room.
copy_section-full :
    (fuel n : ℕ) (p : Place) (r : Reader)
    → n < word_mod
    → p.current_index ≡ page_size
    → Ends n r (copy_section (suc (suc fuel)) n p r)
copy_section-full fuel n p r small at =
    copy_section-round (suc fuel) n p r (omega arith) (λ r' more.
      copy_section-behind fuel (n - wrap (page_size + word_mod - p.current_index)) _ r'
        (omega arith) (omega arith))

-- A section is copied in at most one round more than it has bytes, or fails.
pub copy_section-Ends :
    (fuel n : ℕ) (p : Place) (r : Reader)
    → n < word_mod
    → p.current_index ≤ page_size + 1
    → n < fuel
    → Ends n r (copy_section fuel n p r)
copy_section-Ends zero n p r small le lt = absurd (omega arith)
copy_section-Ends (suc zero) n p r small le lt =
    subst (λ k. Ends k r (copy_section 1 k p r)) {x = 0} {y = n} (omega arith)
      (copy_section-nothing 1 p r le)
copy_section-Ends (suc (suc fuel)) n p r small le lt =
    elim (Bool-cases (p.current_index == page_size)) [
      | inl full ↦ copy_section-full fuel n p r small (ground arith)
      | inr open_end ↦ elim (Bool-cases (p.current_index == page_size + 1)) [
        | inl behind ↦ copy_section-behind (suc fuel) n p r small (ground arith)
        | inr inside ↦
            let before : p.current_index < page_size = ground arith in
            copy_section-round (suc fuel) n p r le (λ r' more.
              copy_section-Ends (suc fuel) (n - wrap (page_size + word_mod - p.current_index)) _ r'
                (omega arith) (omega arith) (omega arith))
      ]
    ]

-- The bytes of a section that are read.
abbrev pub bytes_read : Section → ℕ
bytes_read s =
    if s.rim
    then elim s.type [
      | data_section ↦ s.section_len
      | other ↦ s.section_len
      | info ↦ 0
      | symd ↦ 16 * (s.section_len / 16)
    ]
    else 0

abbrev pub all_bytes_read : List Section → ℕ
all_bytes_read [] = 0
all_bytes_read (s ∷ rest) = bytes_read s + all_bytes_read rest

Ends-symbols :
    (n j : ℕ) (r : Reader) (p : Place)
    → p.current_index ≤ page_size + 1
    → Ends (16 * n) r (elim (read_symbols n j r) [ none ↦ short | some r' ↦ done r' p ])
unfolding read_symbols
Ends-symbols zero j r p le = (le, omega arith)
Ends-symbols (suc n) j r p le = elim (Bool-cases (ltb (length r.f) 16)) [
  | inl ends ↦ rw ends tt
  | inr enough ↦
      let entry : ℕ → ℕ = λ i. get_or r.f i 0 in
      let symbol : Symbol = record { address = get_number entry 0; index = get_number entry 8 } in
      let r' : Reader = record r { f = drop 16 r.f; syms = update r.syms j symbol } in
      rw enough (
        Ends-add 16 (16 * n) (16 * suc n) r r' _ (omega arith) (ground (arith, length-drop 16 r.f))
          (Ends-symbols n (j + 1) r' p le))
]

Ends-then :
    (m n : ℕ) (r : Reader) (c : Copy) (next : Reader → Place → Copy)
    → Ends m r c
    → ((r' : Reader) (p : Place) → p.current_index ≤ page_size + 1 → Ends n r' (next r' p))
    → Ends
        (m + n)
        r
        (elim c [ done r' p ↦ next r' p | short ↦ short | overrun ↦ overrun | spinning ↦ spinning ])
Ends-then m n r (done r' p) next e k = Ends-add m n (m + n) r r' (next r' p) refl e.1 (k r' p e.0)
Ends-then m n r short next e k = tt
Ends-then m n r overrun next e k = tt
Ends-then m n r spinning next e k = e

-- A section is read to its end, or fails.
read_section-Ends :
    (h : Host) (s : Section) (p : Place) (r : Reader)
    → s.section_len < word_mod
    → p.current_index ≤ page_size + 1
    → Ends (bytes_read s) r (read_section h s p r)
unfolding read_section
read_section-Ends h s p r small le = go s.rim s.type
  where
    data_ends : Ends s.section_len r (copy_section (suc s.section_len) s.section_len p r)
    data_ends = copy_section-Ends (suc s.section_len) s.section_len p r small le (omega arith)

    go :
        (rim : Bool) (type : SectionType)
        → let s' = record s { rim = rim; type = type } in
          Ends (bytes_read s') r (read_section h s' p r)
    go false type = (le, omega arith)
    go true data_section = data_ends
    go true other = data_ends
    go true info = (le, omega arith)
    go true symd =
        Ends-if h.realloc_ok _ r _ _ (λ ok. Ends-symbols (s.section_len / 16) 0 _ p le)
          (λ failed. tt)

abbrev pub AllSmall : List Section → Type 0
AllSmall [] = Unit
AllSmall (s ∷ rest) = (s.section_len < word_mod) × AllSmall rest

-- The loops over sections with lengths below 2 ^ 64 end, from a page index of at most one
-- behind the last: the rounds given to each are enough. They end with all bytes of the sections
-- that are read taken from the file, with a failure, or with a write behind the end of the
-- table of pages, into which the bytes go.
pub read_section_list-Ends :
    (h : Host) (sections : List Section) (p : Place) (r : Reader)
    → AllSmall sections
    → p.current_index ≤ page_size + 1
    → Ends (all_bytes_read sections) r (read_section_list h sections p r)
unfolding read_section_list
read_section_list-Ends h [] p r small le = (le, omega arith)
read_section_list-Ends h (s ∷ rest) p r small le =
    Ends-then (bytes_read s) (all_bytes_read rest) r (read_section h s p r) _
      (read_section-Ends h s p r small.0 le)
      (λ r' p' le'. read_section_list-Ends h rest p' r' small.1 le')
