-- ===== src/DMemory/Words.antt =====
-- Laws of the accesses of merry/merry_dmemory.c: what is written is read back, other bytes stay, the
-- atomic accesses are the plain ones but for one, and addresses from 2 ^ 52 on are taken for others.
use merry_v.Common.{
  ℕ, ◌+◌, ◌*◌, ◌/◌, ◌%◌, ◌≤◌, ◌<◌, ◌≡◌, ◌⊎◌, inl, inr, refl, sym, ap, ap₂, ◌∙◌, Bool, true, false,
  Option, none, some, arith, leb, ltb, ◌&&◌, if◌then◌else◌, fun_ext,
}
use merry_v.Block.Endian.{load, bound, load-store, load-ext, store-frame, load-append}
use merry_v.DMemory.{DMemory, page_size, uint_mod, fault}
use merry_v.DMemory.Access.{Width, byte, word, dword, qword, read, write, read_wide, read_dword_atm}
use merry_v.DMemory.Inv.{IsValid}
use merry_v.DMemory.Flat.{flat, address_limit}
use merry_v.DMemory.Linear.{fits, bytes, Writes, read-linear, write-Writes}

-- In a valid memory, what is written at an address below 2 ^ 52 is read back there at the same
-- width, if the value has no more bytes than the width and all its bytes exist on one page.
pub read-write :
    (w : Width) {m : DMemory} (a v : ℕ)
    → IsValid m
    → a < address_limit
    → v < bound (bytes w)
    → fits (bytes w) m a ≡ true
    → read w (write w m a v).1 a ≡ (some v, (write w m a v).1)
read-write w {m} a v valid lt small ok =
    read-linear w (write w m a v).1 a lt ∙ rw (still, loaded) refl
  where
    done : Writes (bytes w) m a v (write w m a v)
    done = write-Writes w a v valid lt small

    still : fits (bytes w) (write w m a v).1 a ≡ true
    still = rw (done.pages) ok

    loaded : load (bytes w) (flat (write w m a v).1) a ≡ v
    loaded =
        ap (λ f. load (bytes w) f a) (fun_ext (λ j. rw ok at (done.bytes j)))
        ∙ load-store (bytes w) (flat m) a v small

-- A read goes by the linear memory, the number of pages and nothing else, at every width.
pub reads-agree :
    (u : Width) (m m' : DMemory) (b : ℕ)
    → b < address_limit
    → m'.number_of_pages ≡ m.number_of_pages
    → load (bytes u) (flat m') b ≡ load (bytes u) (flat m) b
    → (read u m' b).0 ≡ (read u m b).0
reads-agree u m m' b lt same_pages same =
    ap (λ (r : Option ℕ × DMemory). r.0) (read-linear u m' b lt)
    ∙ go (fits (bytes u) m' b) (fits (bytes u) m b) _ _ m m' same_fits same
    ∙ ap (λ (r : Option ℕ × DMemory). r.0) (sym (read-linear u m b lt))
  where
    same_fits : fits (bytes u) m' b ≡ fits (bytes u) m b
    same_fits =
        ap (λ n. ltb b (n * page_size) && leb (b % page_size + bytes u) page_size) same_pages

    go :
        (t' t : Bool) (x y : ℕ) (n n' : DMemory)
        → t' ≡ t
        → x ≡ y
        → ◌≡◌ {A = Option ℕ}
            (if◌then◌else◌ {A = Option ℕ × DMemory} t' (some x, n') (none, fault n')).0
            (if◌then◌else◌ {A = Option ℕ × DMemory} t (some y, n) (none, fault n)).0
    go true true x y n n' te e = ap some e
    go true false x y n n' te e = absurd (cc te)
    go false true x y n n' te e = absurd (cc te)
    go false false x y n n' te e = refl

-- In a valid memory a write below 2 ^ 52 of a value of its width, whose bytes exist on one
-- page, leaves what a read of any width below 2 ^ 52 returns alone, if the two share no byte.
pub read-write_apart :
    (w u : Width) {m : DMemory} (a b v : ℕ)
    → IsValid m
    → a < address_limit
    → b < address_limit
    → v < bound (bytes w)
    → fits (bytes w) m a ≡ true
    → (b + bytes u ≤ a) ⊎ (a + bytes w ≤ b)
    → (read u (write w m a v).1 b).0 ≡ (read u m b).0
read-write_apart w u {m} a b v valid lt lt' small ok apart =
    reads-agree u m (write w m a v).1 b lt' done.pages loaded
  where
    done : Writes (bytes w) m a v (write w m a v)
    done = write-Writes w a v valid lt small

    outside : (i x : ℕ) → i < bytes u → x ≡ b + i → (x < a) ⊎ (a + bytes w ≤ x)
    outside i x h e = elim apart [ inl p ↦ inl (omega arith) | inr p ↦ inr (omega arith) ]

    loaded : load (bytes u) (flat (write w m a v).1) b ≡ load (bytes u) (flat m) b
    loaded = load-ext (bytes u) _ _ b b λ i x y h ex ey.
        rw ok at (done.bytes x)
        ∙ store-frame (bytes w) (flat m) a v x (outside i x h ex)
        ∙ ap (flat m) (omega arith)

page-alias : (a : ℕ) → (a + address_limit) / page_size % uint_mod ≡ a / page_size % uint_mod
page-alias a = omega arith

offset-alias : (a : ℕ) → (a + address_limit) % page_size % uint_mod ≡ a % page_size % uint_mod
offset-alias a = omega arith

-- The deduced page is an `unsigned int`: 2 ^ 52 further on the same byte is addressed.
pub read-alias : (w : Width) (m : DMemory) (a : ℕ) → read w m (a + address_limit) ≡ read w m a
unfolding read read_wide
read-alias byte m a = rw (page-alias a, offset-alias a)
read-alias word m a = rw (page-alias a, offset-alias a)
read-alias dword m a = rw (page-alias a, offset-alias a)
read-alias qword m a = rw (page-alias a, offset-alias a)

-- A qword is its low dword and, four bytes on, its high dword.
pub read_qword-dwords :
    (m : DMemory) (a lo hi : ℕ)
    → a + 4 < address_limit
    → fits 8 m a ≡ true
    → read dword m a ≡ (some lo, m)
    → read dword m (a + 4) ≡ (some hi, m)
    → read qword m a ≡ (some (lo + 4294967296 * hi), m)
read_qword-dwords m a lo hi lt ok el eh =
    read-linear qword m a (omega arith)
    ∙ rw ok (ap (λ x. (some x, m)) (whole ∙ ap₂ (λ x y. x + 4294967296 * y) low high))
  where
    low : load 4 (flat m) a ≡ lo
    low = ground (arith, read-linear dword m a)

    high : load 4 (flat m) (a + 4) ≡ hi
    high = ground (arith, read-linear dword m (a + 4))

    whole : load 8 (flat m) a ≡ load 4 (flat m) a + 4294967296 * load 4 (flat m) (a + 4)
    whole = load-append (flat m) a (a + 4) refl

-- `merry_dmemory_read_dword_atm` does not read the memory: memories with the same number of pages
-- give the same result, whatever their bytes.
pub read_dword_atm-blind :
    (host_word : ℕ → ℕ → ℕ) (m m' : DMemory) (a : ℕ)
    → m'.number_of_pages ≡ m.number_of_pages
    → (read_dword_atm host_word m' a).0 ≡ (read_dword_atm host_word m a).0
unfolding read_dword_atm
read_dword_atm-blind host_word m m' a e = ground arith
