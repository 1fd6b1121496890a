-- ===== src/Cell/Words.antt =====
-- The little-endian writers and readers of tools/x402-bridge/cell-codec.ts.
use semantos_edge.Base.{
  ℕ, zero, suc, ◌+◌, ◌*◌, ◌/◌, ◌%◌, ◌^◌, ◌<◌, ◌≡◌, refl, ap, ◌∙◌, List, [], ◌∷◌, ◌++◌, arith,
  get_or, set, length,
}
use semantos_edge.Base.Bytes.{overwrite, set-overwrite, overwrite_merge, get_or-append}

unfoldable pub write_u16 : List ℕ → ℕ → ℕ → List ℕ
write_u16 b o v = set (set b o (v % 256)) (o + 1) (v / 2 ^ 8 % 256)

unfoldable pub write_u32 : List ℕ → ℕ → ℕ → List ℕ
write_u32 b o v =
    set (set (set (set b o (v % 256)) (o + 1) (v / 2 ^ 8 % 256)) (o + 2) (v / 2 ^ 16 % 256)) (o + 3)
      (v / 2 ^ 24 % 256)

-- `n` rounds of the loop of writeU64LE, from round `i` on.
write_rounds : ℕ → ℕ → List ℕ → ℕ → ℕ → List ℕ
write_rounds zero i b o v = b
write_rounds (suc n) i b o v = write_rounds n (i + 1) (set b (o + i) (v / 2 ^ (i * 8) % 256)) o v

unfoldable pub write_u64 : List ℕ → ℕ → ℕ → List ℕ
unfolding write_rounds
write_u64 b o v = write_rounds 8 0 b o v

-- An element is below 256, so the bits that the source joins by `|` do not overlap and their sum is
-- the same; an element beyond the end is undefined, which `|` reads as 0.
unfoldable pub read_u16 : List ℕ → ℕ → ℕ
read_u16 b o = get_or b o 0 + get_or b (o + 1) 0 * 2 ^ 8

unfoldable pub read_u32 : List ℕ → ℕ → ℕ
read_u32 b o =
    get_or b o 0
    + get_or b (o + 1) 0 * 2 ^ 8
    + get_or b (o + 2) 0 * 2 ^ 16
    + get_or b (o + 3) 0 * 2 ^ 24

unfoldable pub read_u64 : List ℕ → ℕ → ℕ
read_u64 b o = read_u32 b o + read_u32 b (o + 4) * 2 ^ 32

-- The bytes that the writers write.
abbrev pub le16 : ℕ → List ℕ
le16 v = v % 256 ∷ v / 2 ^ 8 % 256 ∷ []

abbrev pub le32 : ℕ → List ℕ
le32 v = v % 256 ∷ v / 2 ^ 8 % 256 ∷ v / 2 ^ 16 % 256 ∷ v / 2 ^ 24 % 256 ∷ []

abbrev pub le64 : ℕ → List ℕ
le64 v = le32 v ++ le32 (v / 2 ^ 32)

-- A byte written right behind what a write wrote.
set_next :
    (c b : List ℕ) (o p v : ℕ) (xs : List ℕ)
    → c ≡ overwrite b o xs
    → p ≡ o + length xs
    → set c p v ≡ overwrite b o (xs ++ (v ∷ []))
set_next c b o p v xs e h =
    set-overwrite c p v ∙ ap (λ t. overwrite t p (v ∷ [])) e ∙ overwrite_merge b o p xs (v ∷ []) h

pub write_u16_lem : (b : List ℕ) (o v : ℕ) → write_u16 b o v ≡ overwrite b o (le16 v)
unfolding write_u16
write_u16_lem b o v = set_next _ b o (o + 1) _ (_ ∷ []) (set-overwrite b o _) (omega arith)

pub write_u32_lem : (b : List ℕ) (o v : ℕ) → write_u32 b o v ≡ overwrite b o (le32 v)
unfolding write_u32
write_u32_lem b o v =
    set_next _ b o (o + 3) _ (_ ∷ _ ∷ _ ∷ [])
      (set_next _ b o (o + 2) _ (_ ∷ _ ∷ [])
        (set_next _ b o (o + 1) _ (_ ∷ []) (set-overwrite b o _) (omega arith)) (omega arith))
      (omega arith)

pub read_u16-append :
    (pre xs : List ℕ) (o k : ℕ) → o ≡ length pre + k → read_u16 (pre ++ xs) o ≡ read_u16 xs k
unfolding read_u16
read_u16-append pre xs o k h =
    rw (get_or-append pre xs o k 0 h, get_or-append pre xs (o + 1) (k + 1) 0 (omega arith)) refl

pub read_u32-append :
    (pre xs : List ℕ) (o k : ℕ) → o ≡ length pre + k → read_u32 (pre ++ xs) o ≡ read_u32 xs k
unfolding read_u32
read_u32-append pre xs o k h =
    rw
      (
        get_or-append pre xs o k 0 h,
        get_or-append pre xs (o + 1) (k + 1) 0 (omega arith),
        get_or-append pre xs (o + 2) (k + 2) 0 (omega arith),
        get_or-append pre xs (o + 3) (k + 3) 0 (omega arith),
      )
      refl

pub write_u64_lem : (b : List ℕ) (o v : ℕ) → write_u64 b o v ≡ overwrite b o (le64 v)
unfolding write_u64 write_rounds
write_u64_lem b o v =
    let e0 : v / 2 ^ (0 * 8) % 256 ≡ v % 256 = omega arith in
    let e5 : v / 2 ^ 40 % 256 ≡ v / 2 ^ 32 / 2 ^ 8 % 256 = omega arith in
    let e6 : v / 2 ^ 48 % 256 ≡ v / 2 ^ 32 / 2 ^ 16 % 256 = omega arith in
    let e7 : v / 2 ^ 56 % 256 ≡ v / 2 ^ 32 / 2 ^ 24 % 256 = omega arith in
    let start : o + 0 ≡ o = omega arith in
    set_next _ b o (o + 7) _ (_ ∷ _ ∷ _ ∷ _ ∷ _ ∷ _ ∷ _ ∷ [])
      (set_next _ b o (o + 6) _ (_ ∷ _ ∷ _ ∷ _ ∷ _ ∷ _ ∷ [])
        (set_next _ b o (o + 5) _ (_ ∷ _ ∷ _ ∷ _ ∷ _ ∷ [])
          (set_next _ b o (o + 4) _ (_ ∷ _ ∷ _ ∷ _ ∷ [])
            (set_next _ b o (o + 3) _ (_ ∷ _ ∷ _ ∷ [])
              (set_next _ b o (o + 2) _ (_ ∷ _ ∷ [])
                (set_next _ b o (o + 1) _ (_ ∷ [])
                  (set-overwrite b (o + 0) _
                    ∙ ap (λ p. overwrite b p (v / 2 ^ (0 * 8) % 256 ∷ [])) start)
                  (omega arith))
                (omega arith))
              (omega arith))
            (omega arith))
          (omega arith))
        (omega arith))
      (omega arith)
    ∙ ap (overwrite b o) (λ i.
      e0 i
      ∷ v / 2 ^ 8 % 256
      ∷ v / 2 ^ 16 % 256
      ∷ v / 2 ^ 24 % 256
      ∷ v / 2 ^ 32 % 256
      ∷ e5 i
      ∷ e6 i
      ∷ e7 i
      ∷ [])

pub read_u16-le16 : (v : ℕ) (xs : List ℕ) → v < 2 ^ 16 → read_u16 (le16 v ++ xs) 0 ≡ v
unfolding read_u16
read_u16-le16 v xs h = omega arith

pub read_u32-le32 : (v : ℕ) (xs : List ℕ) → v < 2 ^ 32 → read_u32 (le32 v ++ xs) 0 ≡ v
unfolding read_u32
read_u32-le32 v xs h = omega arith

pub read_u64-le64 :
    (pre xs : List ℕ) (o v : ℕ)
    → o ≡ length pre
    → v < 2 ^ 64
    → read_u64 (pre ++ (le64 v ++ xs)) o ≡ v
unfolding read_u64
read_u64-le64 pre xs o v h b =
    rw
      (
        read_u32-append pre (le64 v ++ xs) o 0 (omega arith),
        read_u32-append pre (le64 v ++ xs) (o + 4) 4 (omega arith),
      )
      (unfold read_u32 in omega arith)
